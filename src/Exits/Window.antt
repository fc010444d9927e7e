-- ===== src/Exits/Window.antt =====
-- features/exits.py: which rows `resolve_exits` reads, and how long a position is held.
use prosignal.Prelude.{
  ℕ, ◌+◌, ◌-◌, ◌≤◌, ◌<◌, min, ◌≡◌, sym, ap, ◌∙◌, ap₂, inl, inr, Bool, ◌&&◌, Option, none, some,
  List, ◌++◌, arith, leb, if◌then◌else◌, Bool-cases, Option-cases, length, get_elem?, take, drop,
  slice, length-append, length-drop, length-take, take-append, get_elem-append, last_of,
}
use prosignal.Prelude.Floats.{FloatOps}
use prosignal.Exits.Defs.{
  Side, exit_stop, exit_target, exit_invalidation, exit_timeout, first_hit, ExitRules, Row, Levels,
  levels_of, hit_stop, hit_target, hit_inval, Exit, timeout_on, resolve_window, usable, resolve_row,
  resolve_to, resolve_exits,
}
use prosignal.Exits.Walk.{walk, IsEnd, walk-IsEnd}
use prosignal.Exits.Masks.{exit_of, resolve_window-walk}

some_eq {ℓ} : {A : Type ℓ} {x y : A} → Path (Option A) (some x) (some y) → x ≡ y
some_eq h = cc

before :
    {A : Type 0} (s v t k : ℕ) (side : Side) (b : A) (bars : List A)
    → IsEnd s v t bars (some (k, side, b))
    → k < length bars
before s v t k exit_stop b bars h = h.3
before s v t k exit_invalidation b bars h = h.3
before s v t k exit_target b bars h = h.3
before s v t k exit_timeout b bars h = absurd h

module _ (F : FloatOps) (isfinite : F.Float → Bool) (clip : F.Float → F.Float → F.Float → F.Float)
    (minimum : F.Float → F.Float → F.Float) (rules : ExitRules F isfinite clip minimum) where
  abbrev Rows : Type 0
  Rows = List (Row F isfinite clip minimum)

  -- Nothing after row i + horizon is read: where the rows reach it, rows added after the last one do
  -- not change the exit.
  pub resolve_exits-append :
      (rows more : Rows) (i : ℕ)
      → i + rules.horizon < length rows
      → resolve_exits F isfinite clip minimum rules (rows ++ more) i
        ≡ resolve_exits F isfinite clip minimum rules rows i
  unfolding resolve_exits
  resolve_exits-append rows more i h =
      let end = i + rules.horizon in
      let longer : min end (length (rows ++ more) - 1) ≡ end =
        omega (arith, length-append rows more) in
      let reached : min end (length rows - 1) ≡ end = omega arith in
      let window : slice (i + 1) (end + 1) (rows ++ more) ≡ slice (i + 1) (end + 1) rows =
        ap (drop (i + 1)) (take-append (end + 1) rows more (omega arith)) in
      ap (resolve_to F isfinite clip minimum rules (rows ++ more) i) longer
      ∙ ap₂
          (λ (bs : Rows) (r : Option (Row F isfinite clip minimum)).
            if leb end i then none else resolve_row F isfinite clip minimum rules i end bs r)
          window (get_elem-append rows more i (omega arith))
      ∙ sym (ap (resolve_to F isfinite clip minimum rules rows i) reached)

  -- The bounds of an exit
  abbrev pub IsWithin : ℕ → ℕ → Exit F isfinite clip minimum → Type 0
  IsWithin i end e = (1 ≤ e.held) × (e.t1 ≡ i + e.held) × (e.t1 ≤ end)

  exit_of-IsWithin :
      (l : Levels F isfinite clip minimum) (bars : Rows) (i end s v t : ℕ)
      (w : Option (ℕ × Side × Row F isfinite clip minimum)) (e : Exit F isfinite clip minimum)
      → i < end
      → end ≡ i + length bars
      → IsEnd s v t bars w
      → exit_of F isfinite clip minimum l bars i end w ≡ some e
      → IsWithin i end e
  exit_of-IsWithin l bars i end s v t none e = λ after size ends h.
      elim (Option-cases (last_of bars)) [
        | inl absent ↦ let bad = sym (ap timed absent) ∙ h in cc
        | inr (b, at) ↦
            let k = some_eq (sym (ap timed at) ∙ h) in
            let held : length bars ≡ e.held = ap (λ (x : Exit F isfinite clip minimum). x.held) k in
            let t1 : end ≡ e.t1 = ap (λ (x : Exit F isfinite clip minimum). x.t1) k in
            (omega arith, omega arith, omega arith)
      ]
    where
      timed : Option (Row F isfinite clip minimum) → Option (Exit F isfinite clip minimum)
      timed o = timeout_on F isfinite clip minimum l o (length bars) end
  exit_of-IsWithin l bars i end s v t (some (k, side, b)) e = λ after size h g.
      let inside : k < length bars = before s v t k side b bars h in
      let held : k + 1 ≡ e.held = ap (λ (x : Exit F isfinite clip minimum). x.held) (some_eq g) in
      let t1 : i + 1 + k ≡ e.t1 = ap (λ (x : Exit F isfinite clip minimum). x.t1) (some_eq g) in
      (omega arith, omega arith, omega arith)

  -- A position is held for at least one session and at most the horizon, and its last row, counted
  -- from the row it was opened at, is one that the frame has.
  pub resolve_exits-IsWithin :
      (rows : Rows) (i : ℕ) (e : Exit F isfinite clip minimum)
      → resolve_exits F isfinite clip minimum rules rows i ≡ some e
      → (1 ≤ e.held) × (e.held ≤ rules.horizon) × (e.t1 ≡ i + e.held) × (e.t1 < length rows)
  unfolding resolve_exits
  resolve_exits-IsWithin rows i e =
      let end = min (i + rules.horizon) (length rows - 1) in
      elim (Bool-cases (leb end i)) [
        | inl past ↦ rw past (λ h. cc)
        | inr ahead ↦ elim (Option-cases (get_elem? rows i)) [
          | inl absent ↦ rw ahead (rw absent (λ h. cc))
          | inr (row, there) ↦ rw ahead (
              rw there (elim (Bool-cases (usable F isfinite clip minimum rules row)) [
                | inl good ↦ rw good (λ h.
                    let later : i < end = ground arith in
                    let bars = slice (i + 1) (end + 1) rows in
                    let (one, at, last) =
                      window row bars end (ground arith)
                        (omega (
                          arith,
                          later,
                          length-drop (i + 1) (take (end + 1) rows),
                          length-take (end + 1) rows,
                        ))
                        h in
                    (one, omega arith, at, omega arith))
                | inr bad ↦ rw bad (λ h. cc)
              ]))
        ]
      ]
    where
      window :
          (row : Row F isfinite clip minimum) (bars : Rows) (end : ℕ)
          → i < end
          → end ≡ i + length bars
          → resolve_window F isfinite clip minimum rules
              (levels_of F isfinite clip minimum rules row)
              bars
              i
              end
            ≡ some e
          → IsWithin i end e
      window row bars end after size h =
          let l = levels_of F isfinite clip minimum rules row in
          let stops = λ (b : Row F isfinite clip minimum).
            rules.use_stop && hit_stop F isfinite clip minimum l b in
          let fails = λ (b : Row F isfinite clip minimum).
            rules.use_invalidation && hit_inval F isfinite clip minimum rules b in
          let takes = λ (b : Row F isfinite clip minimum).
            rules.use_target && hit_target F isfinite clip minimum l b in
          exit_of-IsWithin l bars i end (first_hit stops bars) (first_hit fails bars)
            (first_hit takes bars) (walk stops fails takes bars) e after size
            (walk-IsEnd stops fails takes bars)
            (sym (resolve_window-walk F isfinite clip minimum rules l bars i end) ∙ h)
