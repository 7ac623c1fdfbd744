-- ===== src/Etl/Merge/Names.antt =====
-- Names: a real name is never replaced by an email.
use jp_adopt_core.Prelude.{
  ◌≡◌, ap, refl, true, false, not, Option, none, some, [], ◌∷◌, ◌||◌, arith,
}
use jp_adopt_core.Text.{Text, Unicode, text_eq, text_eq_iff, strip}
use jp_adopt_core.Etl.Merge.{is_real_name, resolve_display_name, is_empty, same_name}

-- The display name after the merge.
abbrev pub resolved : Option Text → Option Text → Option Text
resolved core_name none = core_name
resolved core_name (some name) = some name

module _ (u : Unicode) where
  -- The empty text is no real name, since stripping it leaves it empty.
  empty_not_real : (email : Option Text) → is_real_name u (some []) email ≡ false
  unfolding is_real_name strip
  empty_not_real email = refl

  none_not_real : (email : Option Text) → is_real_name u none email ≡ false
  unfolding is_real_name
  none_not_real email = refl

  real-resp :
      (a b : Text) (email : Option Text)
      → text_eq a b ≡ true
      → is_real_name u (some a) email ≡ is_real_name u (some b) email
  real-resp a b email h = ap (λ (n : Text). is_real_name u (some n) email) ((text_eq_iff a b).0 h)

  -- After the merge the name is real exactly if one of the two systems has a real name.
  resolve_keeps_real :
      (core_name dt_name email : Option Text)
      → is_real_name u (resolved core_name (resolve_display_name u core_name dt_name email)) email
        ≡ (is_real_name u core_name email || is_real_name u dt_name email)
  unfolding resolve_display_name
  resolve_keeps_real core_name none email = ground (arith, none_not_real email)
  resolve_keeps_real core_name (some []) email = ground (arith, empty_not_real email)
  resolve_keeps_real none (some (c ∷ cs)) email = ground (arith, none_not_real email)
  resolve_keeps_real (some name) (some (c ∷ cs)) email =
      ground (arith, real-resp name (c ∷ cs) email)

  -- A name that the merge sets is that of Disciple.Tools, is not empty and differs from the old
  -- one, and is real unless the old one is not real either.
  resolve_sets_dt_name :
      (core_name dt_name email : Option Text) {name : Text}
      → resolve_display_name u core_name dt_name email ≡ some name
      → (dt_name ≡ some name)
        × (is_empty name ≡ false)
        × (same_name core_name name ≡ false)
        × ((is_real_name u (some name) email || not (is_real_name u core_name email)) ≡ true)
  unfolding resolve_display_name
  resolve_sets_dt_name core_name none email h = ground arith
  resolve_sets_dt_name core_name (some dt) email h = ground arith
