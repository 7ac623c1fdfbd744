-- ===== src/Intake/Returns.antt =====
-- Actions of the intake that return, with what holds of their value and of the tables.
use jp_adopt_core.Prelude.{
  ℕ, suc, String, ◌≡◌, refl, sym, ap, ◌∙◌, true, Option, none, some, List, [], ◌∷◌, ◌++◌, in_texts,
  length, All, arith,
}
use mathlib.Core.List.{append_assoc, append-nil}
use jp_adopt_core.Models.{FpgInterest}
use jp_adopt_core.Matching.Rows.{AdopterInterest}
use jp_adopt_core.Intake.Rows.{
  ContactProfile, Desk, Fresh, Settings, Result, ok, err, Action, ◌>>=◌, pure,
}
use jp_adopt_core.Intake.Contacts.{apply_profile, upsert_profile}
use jp_adopt_core.Intake.Process.{
  unknown_people_id3s, new_interest, create_interest, create_interests, raise_missing,
  select_interests, fabricate,
}

-- The action returned, and `Q` holds of its value and the tables.
abbrev pub Returns : {A : Type 0} → (A → Desk → Type 0) → Result A × Desk → Type 0
Returns Q (ok a, d) = Q a d
Returns Q (err e, d) = ⊥

pub Returns-map :
    {A : Type 0} (P Q : A → Desk → Type 0) (r : Result A × Desk)
    → Returns P r
    → ((a : A) (d : Desk) → P a d → Q a d)
    → Returns Q r
Returns-map P Q (ok a, d) h k = k a d h
Returns-map P Q (err e, d) h k = h

pub Returns-bind :
    {A B : Type 0} (m : Action A) (f : A → Action B) (d : Desk) (R : A → Desk → Type 0)
    → (Q : B → Desk → Type 0) → Returns R (m d)
    → ((a : A) (d' : Desk) → R a d' → Returns Q (f a d'))
    → Returns Q ((m >>= f) d)
Returns-bind {A} {B} m f d R Q h k = go (m d) h
  where
    go :
        (r : Result A × Desk)
        → Returns R r
        → Returns Q (elim r.0 as (λ _. Result B × Desk) [ ok a ↦ f a r.1 | err e ↦ (err e, r.1) ])
    go (ok a, d') g = k a d' g
    go (err e, d') g = absurd g

-- A bind whose first action returned.
pub bind-ok :
    {A B : Type 0} (m : Action A) (f : A → Action B) (d d' : Desk) (a : A)
    → m d ≡ (ok a, d')
    → (m >>= f) d ≡ f a d'
bind-ok {A} {B} m f d d' a e =
    ap
      (λ (r : Result A × Desk). elim r.0 as (λ _. Result B × Desk) [
        | ok x ↦ f x r.1
        | err x ↦ (err x, r.1)
      ])
      e

-- The selections are in the form that the schema gives them, and the table has their codes.
abbrev pub Known : (String → String) → List String → List FpgInterest → Type 0
Known strip fpgs =
    All (λ sel. (strip sel.people_id3 ≡ sel.people_id3) × (in_texts sel.people_id3 fpgs ≡ true))

pub unknown-Known :
    (strip : String → String) (fpgs : List String) (sels : List FpgInterest)
    → Known strip fpgs sels
    → unknown_people_id3s strip fpgs sels ≡ []
unfolding unknown_people_id3s
unknown-Known strip fpgs [] h = refl
unknown-Known strip fpgs (sel ∷ sels) (h, hs) = rw (h.0, h.1, unknown-Known strip fpgs sels hs)

-- One row for each selection, from the `k`-th on.
abbrev pub interest_rows : Fresh → ℕ → ℕ → List FpgInterest → List AdopterInterest
interest_rows fresh i k [] = []
interest_rows fresh i k (sel ∷ sels) =
    new_interest (fresh.interest_id k) i sel ∷ interest_rows fresh i (suc k) sels

abbrev pub add_interests : List AdopterInterest → Desk → Desk
add_interests xs d = record d { interests = d.interests ++ xs }

create_interest_lem :
    (x : AdopterInterest) (code : String) (d : Desk)
    → in_texts code d.fpgs ≡ true
    → create_interest x code d ≡ (ok tt, add_interests (x ∷ []) d)
create_interest_lem x code d h = rw (h, create_interest)

pub create_interests_lem :
    (strip : String → String) (fresh : Fresh) (i k : ℕ) (sels : List FpgInterest) (d : Desk)
    → Known strip d.fpgs sels
    → create_interests fresh i k sels d
      ≡ (ok (fabricate fresh k sels), add_interests (interest_rows fresh i k sels) d)
unfolding create_interests
create_interests_lem strip fresh i k [] d h =
    ap (λ xs. (ok [], record d { interests = xs })) (sym (append-nil d.interests))
create_interests_lem strip fresh i k (sel ∷ sels) d (h, hs) =
    let x = new_interest (fresh.interest_id k) i sel in
    let k' = λ (ids : List ℕ). pure {A = List ℕ} (fresh.interest_id k ∷ ids) in
    bind-ok (create_interest x sel.people_id3) (λ _. create_interests fresh i (suc k) sels >>= k') d
      (add_interests (x ∷ []) d) tt (create_interest_lem x sel.people_id3 d h.1)
    ∙ bind-ok (create_interests fresh i (suc k) sels) k' (add_interests (x ∷ []) d) _ _
        (create_interests_lem strip fresh i (suc k) sels (add_interests (x ∷ []) d) hs)
    ∙ ap
        (λ xs.
          (ok (fresh.interest_id k ∷ fabricate fresh (suc k) sels), record d { interests = xs }))
        (append_assoc d.interests (x ∷ []) (interest_rows fresh i (suc k) sels))

pub select_interests_lem :
    (cfg : Settings) (fresh : Fresh) (i : ℕ) (sels : List FpgInterest) (d : Desk)
    → Known cfg.strip d.fpgs sels
    → select_interests cfg fresh i sels d
      ≡ (ok (fabricate fresh 0 sels), add_interests (interest_rows fresh i 0 sels) d)
select_interests_lem cfg fresh i sels d h =
    bind-ok (raise_missing cfg (unknown_people_id3s cfg.strip d.fpgs sels))
      (λ _. create_interests fresh i 0 sels) d d tt
      (ap (λ missing. raise_missing cfg missing d) (unknown-Known cfg.strip d.fpgs sels h))
    ∙ create_interests_lem cfg.strip fresh i 0 sels d h

pub length-fabricate :
    {A : Type 0} (fresh : Fresh) (k : ℕ) (xs : List A) → length (fabricate fresh k xs) ≡ length xs
length-fabricate fresh k [] = refl
length-fabricate fresh k (x ∷ xs) = omega (arith, length-fabricate fresh (suc k) xs)

-- A profile is written, and nothing else.
abbrev pub with_profiles : List ContactProfile → Desk → Desk
with_profiles ps d = record d { profiles = ps }

pub apply_profile_lem :
    (fresh : Fresh) (i : ℕ) (o : Option (List (String × String))) (d : Desk)
    → (ps : List ContactProfile) × (apply_profile fresh i o d ≡ (ok tt, with_profiles ps d))
unfolding apply_profile
apply_profile_lem fresh i none d = (d.profiles, refl)
apply_profile_lem fresh i (some []) d = (d.profiles, refl)
apply_profile_lem fresh i (some (x ∷ xs)) d =
    (upsert_profile fresh.profile_id i (x ∷ xs) d.profiles, refl)
