-- ===== src/Matching/Floats.antt =====
-- Python's floats, as far as scores use them: the operations as a parameter, and the facts of
-- IEEE 754 arithmetic on finite numbers that the proofs rely on.
use jp_adopt_core.Prelude.{ℕ, ◌≤◌, ◌<◌, ◌≡◌, Bool, true, ◌⊎◌}

pub record Floats (F : Type 0) : Type 0 where
  -- `a / b` of two ints, correctly rounded; so `ratio 40 100` is the literal 0.40.
  pub ratio : ℕ → ℕ → F
  pub add : F → F → F
  pub mul : F → F → F
  -- `round(x, 3)`
  pub round3 : F → F
  pub leb : F → F → Bool

-- The order is total, the operations are monotone, and a product with a factor of at most one is
-- at most the other factor.
pub record FloatLaws {F : Type 0} (fl : Floats F) : Type 0 where
  pub leb_total : (a b : F) → (fl.leb a b ≡ true) ⊎ (fl.leb b a ≡ true)
  pub leb_trans : (a b c : F) → fl.leb a b ≡ true → fl.leb b c ≡ true → fl.leb a c ≡ true
  pub ratio_nonneg : (a b : ℕ) → fl.leb (fl.ratio 0 1) (fl.ratio a b) ≡ true
  pub ratio_le_one : (a b : ℕ) → a ≤ b → 0 < b → fl.leb (fl.ratio a b) (fl.ratio 1 1) ≡ true
  pub add_mono :
      (a b c d : F)
      → fl.leb a b ≡ true
      → fl.leb c d ≡ true
      → fl.leb (fl.add a c) (fl.add b d) ≡ true
  pub mul_le :
      (x w : F)
      → fl.leb x (fl.ratio 1 1) ≡ true
      → fl.leb (fl.ratio 0 1) w ≡ true
      → fl.leb (fl.mul x w) w ≡ true
