-- ===== src/Prelude/Lists.antt =====
-- Python lists, measured by native numbers, and the `in` test over a list of texts or numbers.
use Prim.Native.Nat.{ℕ, zero, suc, ◌+◌}
use Prim.Native.String.{String}
use mathlib.Core.Path.{◌≡◌}
use mathlib.Core.Bool.{Bool, false, ◌||◌}
use mathlib.Core.List.{List, [], ◌∷◌, ◌++◌}
use native.Mathlib.Omega.{arith}
use jp_adopt_core.Prelude.Tests.{◌==◌, ◌=ₛ◌, if◌then◌else◌}

module _ {ℓ} {A : Type ℓ} where
  abbrev pub length : List A → ℕ
  length [] = 0
  length (x ∷ xs) = suc (length xs)

  abbrev pub take : ℕ → List A → List A
  take zero xs = []
  take (suc n) [] = []
  take (suc n) (x ∷ xs) = x ∷ take n xs

  abbrev pub filter : (A → Bool) → List A → List A
  filter p [] = []
  filter p (x ∷ xs) = if p x then x ∷ filter p xs else filter p xs

  pub length-append : (xs ys : List A) → length (xs ++ ys) ≡ length xs + length ys
  length-append [] ys = omega arith
  length-append (x ∷ xs) ys = omega (arith, length-append xs ys)

-- `text in [...]`
abbrev pub in_texts : String → List String → Bool
in_texts s [] = false
in_texts s (t ∷ ts) = s =ₛ t || in_texts s ts

-- `id in {...}`
abbrev pub in_ids : ℕ → List ℕ → Bool
in_ids i [] = false
in_ids i (j ∷ js) = i == j || in_ids i js
