-- ===== src/Epoch/Log.antt =====
-- validation/epoch.py: the log as it is read back, and the steps that extend it.
use prosignal.Prelude.{
  ℕ, ◌≡◌, refl, sym, ap, ◌∙◌, inl, inr, Bool, true, false, Option, none, some, List, [], ◌∷◌, arith,
  ◌==◌, if◌then◌else◌, ==_iff, Bool-cases, Option-cases, elem, ok,
}
use prosignal.Epoch.Defs.{
  Status, Identity, Epoch, is_open, Line, blank, unreadable, entry, Loaded, read_lines, empty,
  collect, load_all, active, Remainder, no_text, part_of_record, whole_record, Log, lines_of,
  open_epoch, find_epoch, close_epoch,
}
use prosignal.Epoch.Records.{
  IsKept, IsSingle, HasNoOpen, read_lines-IsKept, empty-IsKept, last_open-has, last_open-none,
}

abbrev pub loaded : List Line → Loaded
loaded lines = read_lines lines empty

pub loaded-IsKept : (lines : List Line) → IsKept (loaded lines)
loaded-IsKept lines = read_lines-IsKept lines empty empty-IsKept

pub active-none : (lines : List Line) → active lines ≡ none → HasNoOpen (loaded lines)
unfolding active load_all
active-none lines h k e held =
    last_open-none (loaded lines).latest (loaded lines).order k e h
      ((loaded-IsKept lines).listed k e held) held

pub active-held :
    (lines : List Line) (a : Epoch)
    → active lines ≡ some a
    → (is_open a ≡ true) × ((k : ℕ) × ((loaded lines).latest k ≡ some a))
unfolding active load_all
active-held lines a h = last_open-has (loaded lines).latest (loaded lines).order a h

-- Where at most one is open, an open one is the active one.
pub active-single :
    (lines : List Line) (k : ℕ) (e : Epoch)
    → IsSingle (loaded lines)
    → (loaded lines).latest k ≡ some e
    → is_open e ≡ true
    → active lines ≡ some e
active-single lines k e single held o = elim (Option-cases (active lines)) [
  | inl shut ↦ let not_open = active-none lines shut k e held in cc
  | inr (a, found) ↦
      let (a_open, (j, a_held)) = active-held lines a found in
      let same = single k j e a held a_held o a_open in cc
]

find_epoch-collect :
    (l : Loaded) (ks : List ℕ) (k : ℕ)
    → IsKept l
    → find_epoch k (collect l.latest ks) ≡ (if elem k ks then l.latest k else none)
find_epoch-collect l [] k s = refl
find_epoch-collect l (j ∷ ks) k s = elim (Option-cases (l.latest j)) [
  | inl without ↦
      rw (without, collect)
        (elim (Bool-cases (k == j)) [
          | inl same ↦
              let at = (==_iff k j).0 same in
              let nothing : l.latest k ≡ none = ap l.latest at ∙ without in
              rw same (find_epoch-collect l ks k s ∙ if-none nothing (elem k ks) ∙ sym nothing)
          | inr other ↦ rw other (find_epoch-collect l ks k s)
        ])
  | inr (a, held) ↦
      let keyed = s.keyed j a held in
      rw (held, collect)
        (elim (Bool-cases (k == j)) [
          | inl same ↦
              let at = (==_iff k j).0 same in
              let found : (a.epoch_id == k) ≡ true = ground arith in
              rw (same, found) (sym held ∙ ap l.latest (sym at))
          | inr other ↦
              let missed : (a.epoch_id == k) ≡ false = ground arith in
              rw (other, missed) (find_epoch-collect l ks k s)
        ])
]
  where
    if-none : {k : ℕ} → l.latest k ≡ none → (b : Bool) → (if b then l.latest k else none) ≡ none
    if-none h true = h
    if-none h false = refl

pub load_all-find_epoch :
    (lines : List Line) (k : ℕ) → find_epoch k (load_all lines) ≡ (loaded lines).latest k
unfolding load_all
load_all-find_epoch lines k =
    let l = loaded lines in
    find_epoch-collect l l.order k (loaded-IsKept lines) ∙ elim (Option-cases (l.latest k)) [
      | inl without ↦
          rw without (elim (Bool-cases (elem k l.order)) [ inl h ↦ rw h refl | inr h ↦ rw h refl ])
      | inr (e, held) ↦ rw ((loaded-IsKept lines).listed k e held) refl
    ]

-- The last line that was written for an id.
abbrev pub last_entry : ℕ → List Line → Option Epoch
last_entry k [] = none
last_entry k (blank ∷ lines) = last_entry k lines
last_entry k (unreadable ∷ lines) = last_entry k lines
last_entry k (entry e ∷ lines) = elim (last_entry k lines) [
  | some f ↦ some f
  | none ↦ if e.epoch_id == k then some e else none
]

abbrev pub empty_log : Log
empty_log = record { ended = []; remainder = no_text }

-- What stands at the end of the file after a record was written without its newline.
abbrev pub cut : Remainder → Epoch → Remainder
cut no_text e = whole_record e
cut part_of_record e = part_of_record
cut (whole_record f) e = part_of_record

module _ (id_of : ℕ → Identity → ℕ) (is_space : ℕ → Bool) where
  -- A caller opens an epoch while none is open, or closes one.
  pub data Write (m : Log) (e : Epoch) (u : Log) : Type 0 where
    opens :
        (today : ℕ) (identity : Identity) (label note : ℕ)
        → open_epoch id_of m today identity label note false ≡ ok (e, u)
        → Write m e u
    closes :
        (today k : ℕ) (reason : List ℕ) (status : Status) (by : Option ℕ)
        → close_epoch is_space m today k reason status by ≡ ok (e, u)
        → Write m e u

  -- What can happen to the file: a write; a write that broke off within its record; one that lost
  -- just its newline; a newline that someone else adds at the end.
  pub data Step (m u : Log) : Type 0 where
    writes : (e : Epoch) → Write m e u → Step m u
    breaks_off : u ≡ record m { remainder = part_of_record } → Step m u
    loses_newline :
        (e : Epoch) {t : Log}
        → Write m e t
        → u ≡ record m { remainder = cut m.remainder e }
        → Step m u
    ends_line : u ≡ record { ended = lines_of m; remainder = no_text } → Step m u

  pub data Reach (m : Log) : Log → Type 0 where
    here : Reach m m
    next : {t u : Log} → Reach m t → Step t u → Reach m u
