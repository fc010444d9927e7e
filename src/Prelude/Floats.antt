-- ===== src/Prelude/Floats.antt =====
-- Floating-point numbers as a parameter: the type, the operations that the modelled code calls, and
-- the laws of the order, which hold of floats other than NaN.
use prosignal.Prelude.{ℕ, ◌≡◌, Bool, true, false}

pub record FloatOps : Type 1 where
  pub Float : Type 0
  pub lt : Float → Float → Bool
  pub le : Float → Float → Bool
  pub add : Float → Float → Float
  pub mul : Float → Float → Float
  pub div : Float → Float → Float
  pub neg : Float → Float
  pub abs : Float → Float
  -- The literal n / d.
  pub ratio : ℕ → ℕ → Float

pub record IsOrdered (F : FloatOps) : Type 0 where
  pub lt_asym : (a b : F.Float) → F.lt a b ≡ true → F.lt b a ≡ false
  pub ge_trans : (a b c : F.Float) → F.lt a b ≡ false → F.lt b c ≡ false → F.lt a c ≡ false
  pub lt-neg : (a b : F.Float) → F.lt (F.neg a) (F.neg b) ≡ F.lt b a
