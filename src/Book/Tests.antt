-- ===== src/Book/Tests.antt =====
-- book.py: runs over integers in place of floats.
use prosignal.Prelude.{
  ℕ, ◌+◌, ◌*◌, ◌/◌, ◌≤◌, max, min, ◌≡◌, refl, true, not, ◌&&◌, Option, none, some, List, [], ◌∷◌,
  arith, ◌==◌, if◌then◌else◌, length, take, All, elem,
}
use prosignal.Prelude.Int.{ℤ, pos, pos_part, neg_part, ◌+ℤ◌, ◌-ℤ◌, ◌*ℤ◌, ltb_ℤ}
use prosignal.Prelude.Floats.{FloatOps, IsOrdered}
use prosignal.Book.Defs.{
  BookSpec, target_count, incumbents, newcomers, exit_cut, chosen, Allocation, is_done,
  redistribute, allocate,
}
use prosignal.Book.Amounts.{IsWithin}
use prosignal.Book.Paid.{IsShared}
use prosignal.Book.Select.{chosen-incumbents, chosen-held}
use prosignal.Book.Allocate.{HasCaps, allocate-IsWithin}

abbrev whole : FloatOps
whole = record {
  Float = ℤ;
  lt = ltb_ℤ;
  le = λ a b. not (ltb_ℤ b a);
  add = λ a b. if ltb_ℤ a (pos 1) && not (ltb_ℤ a (pos 0)) then b else a +ℤ b;
  mul = λ a b. a *ℤ b;
  div = λ a b. pos (pos_part a / pos_part b);
  neg = λ a. pos 0 -ℤ a;
  abs = λ a. pos (pos_part a + neg_part a);
  ratio = λ n d. pos (n / d);
}

whole-IsOrdered : IsOrdered whole
unfolding ◌-ℤ◌
whole-IsOrdered = record {
  lt_asym = λ a b h. ground arith;
  ge_trans = λ a b c h k. ground arith;
  lt-neg = λ a b. ground arith;
}

-- Fractions are given in tenths.
abbrev scaled : ℕ → ℤ → ℕ
scaled n x = n * pos_part x / 10

abbrev spec : BookSpec whole
spec = record {
  capital = pos 900;
  entry_percentile = pos 3;
  exit_percentile = pos 6;
  min_names = 1;
  max_names = 5;
}

abbrev ranking : List ℕ
ranking = 11 ∷ 12 ∷ 13 ∷ 14 ∷ 15 ∷ 16 ∷ 17 ∷ 18 ∷ 19 ∷ 20 ∷ []

-- The first name is capped.
abbrev caps : ℕ → ℤ
caps t = if t == 11 then pos 100 else pos 500

chosen_names : chosen whole scaled ranking spec (15 ∷ 19 ∷ []) ≡ 11 ∷ 12 ∷ 15 ∷ []
unfolding chosen target_count
chosen_names = refl

full_band : chosen whole scaled ranking spec (14 ∷ 15 ∷ 16 ∷ 13 ∷ []) ≡ 13 ∷ 14 ∷ 15 ∷ []
unfolding chosen target_count
full_band = refl

three_slots : target_count whole scaled (length ranking) spec ≡ 3
unfolding target_count
three_slots = refl

chosen-incumbents_example :
    All
      (λ t. elem t (chosen whole scaled ranking spec (15 ∷ 19 ∷ [])) ≡ true)
      (take
        (target_count whole scaled (length ranking) spec)
        (incumbents whole (exit_cut whole scaled ranking spec) ranking (15 ∷ 19 ∷ [])))
    × (length (chosen whole scaled ranking spec (15 ∷ 19 ∷ []))
        ≡ min (target_count whole scaled (length ranking) spec) (
            length (incumbents whole (exit_cut whole scaled ranking spec) ranking (15 ∷ 19 ∷ []))
            + length (
                newcomers whole
                  (max (target_count whole scaled (length ranking) spec) 1)
                  ranking
                  (15 ∷ 19 ∷ []))))
chosen-incumbents_example = chosen-incumbents whole scaled spec ranking (15 ∷ 19 ∷ [])

no_room :
    target_count whole scaled (length ranking) spec
    ≤ length
        (incumbents whole (exit_cut whole scaled ranking spec) ranking (14 ∷ 15 ∷ 16 ∷ 13 ∷ []))
unfolding target_count
no_room = omega arith

takes_fourteen : elem 14 (chosen whole scaled ranking spec (14 ∷ 15 ∷ 16 ∷ 13 ∷ [])) ≡ true
unfolding chosen target_count
takes_fourteen = refl

chosen-held_example : elem 14 (14 ∷ 15 ∷ 16 ∷ 13 ∷ []) ≡ true
chosen-held_example =
    chosen-held whole scaled spec ranking (14 ∷ 15 ∷ 16 ∷ 13 ∷ []) 14 no_room takes_fourteen

add_zero : (x : ℤ) → whole.add (whole.ratio 0 1) x ≡ x
add_zero x = refl

allocate-IsWithin_example :
    (b : Allocation whole) × ((allocate whole caps spec (11 ∷ 12 ∷ 15 ∷ []) ≡ some b)
      × ((is_done whole b ≡ true)
          × (IsWithin whole caps b.alloc
              × (HasCaps whole caps (11 ∷ 12 ∷ 15 ∷ []) b
                  × IsShared whole caps spec.capital (11 ∷ 12 ∷ 15 ∷ []) b))))
allocate-IsWithin_example =
    allocate-IsWithin whole whole-IsOrdered add_zero refl caps spec (11 ∷ 12 ∷ 15 ∷ [])
      (refl, (refl, (refl, tt)))

abbrev placed : Option (Allocation whole) → List (ℕ × ℤ)
placed none = []
placed (some a) = a.alloc

amounts :
    placed (allocate whole caps spec (11 ∷ 12 ∷ 15 ∷ []))
    ≡ (11, pos 100) ∷ (12, pos 400) ∷ (15, pos 400) ∷ []
unfolding allocate redistribute ◌+ℤ◌ ◌-ℤ◌
amounts = refl
