-- ===== src/Text.antt =====
-- Python texts as lists of code points: equality, the lexicographic order, `strip` and `split`. The
-- Unicode tables behind `str.isspace`, `str.lower` and `str.casefold` are a parameter.
use jp_adopt_core.Prelude.{
  ℕ, String, ◌≡◌, ◌↔◌, refl, Bool, true, false, List, [], ◌∷◌, if◌then◌else◌, ◌==◌, ltb, ◌&&◌, ◌||◌,
  arith,
}
use Prim.Native.Char.{code}
use mathlib.Core.List.{reverse}

abbrev pub Text : Type 0
Text = List ℕ

-- The code points of a literal.
abbrev pub codes : String → Text
codes String.[] = []
codes (String.◌∷◌ c s) = code c ∷ codes s

pub record Unicode : Type 0 where
  pub is_space : ℕ → Bool
  pub lower : Text → Text
  pub casefold : Text → Text

abbrev pub text_eq : Text → Text → Bool
text_eq [] [] = true
text_eq [] (d ∷ ds) = false
text_eq (c ∷ cs) [] = false
text_eq (c ∷ cs) (d ∷ ds) = c == d && text_eq cs ds

-- `<` on texts
abbrev pub text_lt : Text → Text → Bool
text_lt [] [] = false
text_lt [] (d ∷ ds) = true
text_lt (c ∷ cs) [] = false
text_lt (c ∷ cs) (d ∷ ds) = ltb c d || (c == d && text_lt cs ds)

module _ (u : Unicode) where
  abbrev pub lstrip : Text → Text
  lstrip [] = []
  lstrip (c ∷ cs) = if u.is_space c then lstrip cs else c ∷ cs

  -- `text.strip()`
  unfoldable pub strip : Text → Text
  strip t = reverse (lstrip (reverse (lstrip t)))

-- `text.split(sep, 1)[0]`
abbrev pub before : ℕ → Text → Text
before sep [] = []
before sep (c ∷ cs) = if c == sep then [] else c ∷ before sep cs

pub text_eq_iff : (a b : Text) → (text_eq a b ≡ true) ↔ (a ≡ b)
text_eq_iff [] [] = (λ h. refl, λ h. refl)
text_eq_iff [] (d ∷ ds) = (λ h. ground arith, λ h. ground arith)
text_eq_iff (c ∷ cs) [] = (λ h. ground arith, λ h. ground arith)
text_eq_iff (c ∷ cs) (d ∷ ds) =
    (λ h. ground (arith, text_eq_iff cs ds), λ h. ground (arith, text_eq_iff cs ds))

pub text_lt_irrefl : (a : Text) → text_lt a a ≡ false
text_lt_irrefl [] = refl
text_lt_irrefl (c ∷ cs) = ground (arith, text_lt_irrefl cs)

pub text_lt_asym : (a b : Text) → text_lt a b ≡ true → text_lt b a ≡ false
text_lt_asym [] [] h = refl
text_lt_asym [] (d ∷ ds) h = refl
text_lt_asym (c ∷ cs) [] h = ground arith
text_lt_asym (c ∷ cs) (d ∷ ds) h = ground (arith, text_lt_asym cs ds)

-- What is not smaller than a text is not smaller than anything that the text is not smaller than.
pub text_lt_negtrans :
    (a b c : Text) → text_lt a b ≡ false → text_lt b c ≡ false → text_lt a c ≡ false
text_lt_negtrans [] [] [] h k = refl
text_lt_negtrans [] [] (z ∷ zs) h k = k
text_lt_negtrans [] (y ∷ ys) c h k = ground arith
text_lt_negtrans (x ∷ xs) [] [] h k = refl
text_lt_negtrans (x ∷ xs) [] (z ∷ zs) h k = ground arith
text_lt_negtrans (x ∷ xs) (y ∷ ys) [] h k = refl
text_lt_negtrans (x ∷ xs) (y ∷ ys) (z ∷ zs) h k = ground (arith, text_lt_negtrans xs ys zs)

-- Two texts of which neither is smaller are equal.
pub text_lt_total : (a b : Text) → text_lt a b ≡ false → text_lt b a ≡ false → text_eq a b ≡ true
text_lt_total [] [] h k = refl
text_lt_total [] (d ∷ ds) h k = ground arith
text_lt_total (c ∷ cs) [] h k = ground arith
text_lt_total (c ∷ cs) (d ∷ ds) h k = ground (arith, text_lt_total cs ds)
