-- ===== src/Prelude/Whole.antt =====
-- Integers in place of floats, for runs at concrete inputs.
use prosignal.Prelude.{◌+◌, ◌/◌, not, arith}
use prosignal.Prelude.Int.{ℤ, pos, pos_part, neg_part, ◌+ℤ◌, ◌-ℤ◌, ◌*ℤ◌, ltb_ℤ}
use prosignal.Prelude.Floats.{FloatOps, IsOrdered}

abbrev pub whole : FloatOps
whole = record {
  Float = ℤ;
  lt = ltb_ℤ;
  le = λ a b. not (ltb_ℤ b a);
  add = λ a b. a +ℤ b;
  mul = λ a b. a *ℤ b;
  div = λ a b. pos (pos_part a / pos_part b);
  neg = λ a. pos 0 -ℤ a;
  abs = λ a. pos (pos_part a + neg_part a);
  ratio = λ n d. pos (n / d);
}

pub whole-IsOrdered : IsOrdered whole
unfolding ◌-ℤ◌
whole-IsOrdered = record {
  lt_asym = λ a b h. ground arith;
  ge_trans = λ a b c h k. ground arith;
  lt-neg = λ a b. ground arith;
}
