-- ===== src/Epoch/Single.antt =====
-- validation/epoch.py: one experiment at a time.
use prosignal.Prelude.{
  ℕ, ◌≡◌, refl, sym, ap, ◌∙◌, subst, inl, inr, Bool, true, false, Option, none, some, List, [], ◌∷◌,
  ◌++◌, ◌==◌, ==_iff, Bool-cases, Option-cases, get_elem?, all, Result, ok,
}
use prosignal.Epoch.Defs.{
  Status, open_status, void_status, superseded_status, other_status, Identity, Epoch, is_open, Line,
  blank, unreadable, entry, Loaded, put, read_line, read_lines, empty, load_all, active, Refusal,
  new_epoch, Log, lines_of, append_epoch, open_epoch, closes_with, find_epoch, closed, close_epoch,
}
use prosignal.Epoch.Records.{
  IsSingle, HasNoOpen, put_self, put-open, read_lines-append, opened-IsSingle, collect-has,
}
use prosignal.Epoch.Log.{
  loaded, loaded-IsKept, active-none, active-held, active-single, load_all-find_epoch, last_entry,
  empty_log, Write, opens, closes, Step, writes, breaks_off, loses_newline, ends_line, Reach, here,
  next,
}
use prosignal.Epoch.Sound.{
  IsSound, with-unreadable, with-closed, append_epoch-IsSound, cut-IsSound, active_after,
  append_epoch-active,
}

latest-last_entry :
    (lines : List Line) (l : Loaded) (k : ℕ)
    → (read_lines lines l).latest k
      ≡ elim (last_entry k lines) as (λ x. Option Epoch) [ some e ↦ some e | none ↦ l.latest k ]
latest-last_entry [] l k = refl
latest-last_entry (blank ∷ lines) l k = latest-last_entry lines l k
latest-last_entry (unreadable ∷ lines) l k = latest-last_entry lines l k
latest-last_entry (entry e ∷ lines) l k =
    latest-last_entry lines (read_line (entry e) l) k ∙ elim (Option-cases (last_entry k lines)) [
      | inl nothing ↦
          rw nothing (elim (Bool-cases (e.epoch_id == k)) [ inl h ↦ rw h refl | inr h ↦ rw h refl ])
      | inr (f, later) ↦ rw later refl
    ]

-- What `load_all` has under an id is the last line that was written for it.
pub load_all-last_entry :
    (lines : List Line) (k : ℕ) → find_epoch k (load_all lines) ≡ last_entry k lines
load_all-last_entry lines k =
    load_all-find_epoch lines k
    ∙ latest-last_entry lines empty k
    ∙ elim (Option-cases (last_entry k lines)) [ inl h ↦ rw h refl | inr (e, h) ↦ rw h refl ]

-- Where none is open, writing an open epoch makes it the active one.
entry-active :
    (lines : List Line) (e : Epoch)
    → HasNoOpen (loaded lines)
    → is_open e ≡ true
    → IsSingle (loaded (lines ++ entry e ∷ [])) × (active (lines ++ entry e ∷ []) ≡ some e)
entry-active lines e none_open o =
    let read = read_lines-append lines (entry e) empty in
    let single = subst IsSingle (sym read) (opened-IsSingle e (loaded lines) none_open) in
    let held : (loaded (lines ++ entry e ∷ [])).latest e.epoch_id ≡ some e =
      rw read (put_self e (loaded lines).latest) in
    (single, active-single (lines ++ entry e ∷ []) e.epoch_id e single held o)

written-append_epoch :
    (log u : Log) (c e : Epoch) (b : Bool)
    → is_open c ≡ b
    → Path (Result Refusal (Epoch × Log)) (ok (c, append_epoch log c)) (ok (e, u))
    → (is_open e ≡ b) × (u ≡ append_epoch log e)
written-append_epoch log u c e b o h =
    let both : Path (Epoch × Log) (c, append_epoch log c) (e, u) = cc in
    let same : c ≡ e = ap (λ x. x.0) both in
    (ap is_open (sym same) ∙ o, sym (ap (λ x. x.1) both) ∙ ap (λ x. append_epoch log x) same)

closed-shut :
    (today : ℕ) (status : Status) (reason : List ℕ) (by : Option ℕ) (e : Epoch)
    → closes_with status ≡ true
    → is_open (closed today status reason by e) ≡ false
unfolding is_open
closed-shut today open_status reason by e h = cc
closed-shut today void_status reason by e h = refl
closed-shut today superseded_status reason by e h = refl
closed-shut today (other_status t) reason by e h = cc

-- Where at most one is open, writing it closed leaves none open.
closed-active :
    (lines : List Line) (live c : Epoch)
    → IsSingle (loaded lines)
    → (loaded lines).latest live.epoch_id ≡ some live
    → is_open live ≡ true
    → c.epoch_id ≡ live.epoch_id
    → is_open c ≡ false
    → active (lines ++ entry c ∷ []) ≡ none
closed-active lines live c single held o same shut =
    elim (Option-cases (active (lines ++ entry c ∷ []))) [
      | inl nothing ↦ nothing
      | inr (a, found) ↦
          let (a_open, (j, a_held)) = active-held (lines ++ entry c ∷ []) a found in
          let read = read_lines-append lines (entry c) empty in
          let at : put c (loaded lines).latest j ≡ some a =
            sym (ap (λ l. l.latest j) read) ∙ a_held in
          let (other, before) = put-open c a (loaded lines).latest j shut a_open at in
          let one = single live.epoch_id j live a held before o a_open in
          let hit = (==_iff c.epoch_id j).1 (same ∙ one) in cc
    ]

module _ (id_of : ℕ → Identity → ℕ) (is_space : ℕ → Bool) where
  open_epoch-cases :
      (log u : Log) (today label note : ℕ) (identity : Identity) (e : Epoch)
      → open_epoch id_of log today identity label note false ≡ ok (e, u)
      → (active (lines_of log) ≡ none) × ((is_open e ≡ true) × (u ≡ append_epoch log e))
  unfolding open_epoch is_open
  open_epoch-cases log u today label note identity e = elim (Option-cases (active (lines_of log))) [
    | inl nothing ↦ rw nothing (λ h. (
      refl,
      written-append_epoch log u (new_epoch (id_of today identity) today identity label note) e true
          refl h,
    ))
    | inr (a, live) ↦ rw live (λ h. cc)
  ]

  close_epoch-cases :
      (log u : Log) (today k : ℕ) (reason : List ℕ) (status : Status) (by : Option ℕ) (c : Epoch)
      → close_epoch is_space log today k reason status by ≡ ok (c, u)
      → (is_open c ≡ false) × (u ≡ append_epoch log c)
  unfolding close_epoch is_open
  close_epoch-cases log u today k reason status by c = elim (Bool-cases (closes_with status)) [
    | inr bad ↦ rw bad (λ h. cc)
    | inl valid ↦ elim (Bool-cases (all is_space reason)) [
      | inl blank_reason ↦ rw valid (rw blank_reason (λ h. cc))
      | inr told ↦ elim (Option-cases (find_epoch k (load_all (lines_of log)))) [
        | inl missing ↦ rw valid (rw told (rw missing (λ h. cc)))
        | inr (e, found) ↦ rw valid (
            rw told (
              rw found (λ h.
                written-append_epoch log u (closed today status reason by e) c false
                  (closed-shut today status reason by e valid) h)))
      ]
    ]
  ]

  -- What is written may be read after all the lines before it.
  Write-IsSingle :
      (m u : Log) (e : Epoch)
      → Write id_of is_space m e u
      → IsSound m
      → (u ≡ append_epoch m e) × IsSingle (loaded (lines_of m ++ entry e ∷ []))
  Write-IsSingle m u e (opens today identity label note h) s =
      let (nothing, (o, written)) = open_epoch-cases m u today label note identity e h in
      (written, (entry-active (lines_of m) e (active-none (lines_of m) nothing) o).0)
  Write-IsSingle m u e (closes today k reason status by h) s =
      let (shut, written) = close_epoch-cases m u today k reason status by e h in
      (written, with-closed (lines_of m) e shut s.1)

  Step-IsSound : (m u : Log) → Step id_of is_space m u → IsSound m → IsSound u
  Step-IsSound m u (writes e w) s =
      let (written, single) = Write-IsSingle m u e w s in
      subst IsSound (sym written) (append_epoch-IsSound m e s single)
  Step-IsSound m u (breaks_off h) s = subst IsSound (sym h) (s.0, with-unreadable m.ended s.0)
  Step-IsSound m u (loses_newline e {t} w h) s =
      subst IsSound (sym h) (cut-IsSound m e s (Write-IsSingle m t e w s).1)
  Step-IsSound m u (ends_line h) s = subst IsSound (sym h) (s.1, s.1)

  pub Reach-IsSound : (u : Log) → Reach id_of is_space empty_log u → IsSound u
  Reach-IsSound u here = ((λ k j e f h. cc), (λ k j e f h. cc))
  Reach-IsSound u (next {t} r s) = Step-IsSound t u s (Reach-IsSound t r)

  -- In a log made by opening while none is open, closing and torn writes, every epoch that
  -- `load_all` lists as open is the active one. A torn write leaves a part of its record or all but
  -- its newline, and the next record is on that line; someone else may end the line.
  pub open_is_active :
      (log : Log) (i : ℕ) (e : Epoch)
      → Reach id_of is_space empty_log log
      → get_elem? (load_all (lines_of log)) i ≡ some e
      → is_open e ≡ true
      → active (lines_of log) ≡ some e
  unfolding load_all
  open_is_active log i e r at o =
      let lines = lines_of log in
      let (k, held) = collect-has (loaded lines).latest (loaded lines).order i e at in
      active-single lines k e (Reach-IsSound log r).1 held o

  -- In a log made by opening while none is open, closing and torn writes, the active epoch can be
  -- closed with either closing status and a reason that is not blank: the call returns the closed
  -- epoch. If the file ended with a newline, none is active then. If a torn write left a part of a
  -- record at its end, the closing record is lost on that line and the same epoch is still active;
  -- if it left a whole record, both are lost, and what the lines before had active is active.
  pub close_epoch-active :
      (log : Log) (today : ℕ) (reason : List ℕ) (status : Status) (by : Option ℕ) (live : Epoch)
      → Reach id_of is_space empty_log log
      → active (lines_of log) ≡ some live
      → closes_with status ≡ true
      → all is_space reason ≡ false
      → (u : Log) × ((close_epoch is_space log today live.epoch_id reason status by
            ≡ ok (closed today status reason by live, u))
          × (active (lines_of u) ≡ active_after log live))
  close_epoch-active log today reason status by live r found valid told =
      let lines = lines_of log in
      let c = closed today status reason by live in
      let (o, (k, at)) = active-held lines live found in
      let keyed = (loaded-IsKept lines).keyed k live at in
      let held = ap (loaded lines).latest keyed ∙ at in
      let listed = load_all-find_epoch lines live.epoch_id ∙ held in
      let shut = closed-shut today status reason by live valid in
      (
        append_epoch log c,
        (
          unfold close_epoch in rw valid (rw told (rw listed refl)),
          append_epoch-active log live c found
              (closed-active lines live c (Reach-IsSound log r).1 held o refl shut),
        ),
      )
