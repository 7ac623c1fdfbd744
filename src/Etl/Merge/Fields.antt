-- ===== src/Etl/Merge/Fields.antt =====
-- Columns, consent and interests: what the merge keeps and what it takes over.
use jp_adopt_core.Prelude.{
  String, ap, ◌≡◌, refl, true, false, not, List, [], ◌∷◌, if◌then◌else◌, ◌=ₛ◌, =ₛ_iff, in_texts,
  ◌&&◌, ◌||◌, arith, All, Bool-cases, inl, inr,
}
use jp_adopt_core.Etl.Merge.{
  Value, null, text, number, value_eq, is_blank, Columns, get, has_key, merge_descriptive,
  set_union, set_difference, consent_most_restrictive, interests_to_add,
}

value_eq_sound : (v w : Value) → value_eq v w ≡ true → v ≡ w
value_eq_sound null null h = refl
value_eq_sound (text s) (text t) h = ground (arith, =ₛ_iff s t)
value_eq_sound (number m) (number n) h = ground arith
value_eq_sound null (text t) h = cc
value_eq_sound null (number n) h = cc
value_eq_sound (text s) null h = cc
value_eq_sound (text s) (number n) h = cc
value_eq_sound (number m) null h = cc
value_eq_sound (number m) (text t) h = cc

-- The keys of a dict are distinct.
abbrev pub IsDict : Columns → Type 0
IsDict [] = Unit
IsDict ((k, v) ∷ rest) = (has_key rest k ≡ false) × IsDict rest

get-absent : (dt : Columns) (k : String) → has_key dt k ≡ false → get dt k ≡ null
get-absent [] k h = refl
get-absent ((j, v) ∷ dt) k h = ground (arith, get-absent dt k)

merge-absent :
    (core dt : Columns) (k : String)
    → has_key dt k ≡ false
    → has_key (merge_descriptive core dt) k ≡ false
unfolding merge_descriptive
merge-absent core [] k h = refl
merge-absent core ((j, v) ∷ dt) k h = ground (arith, merge-absent core dt k)

-- A row's column after the update.
abbrev pub updated : Columns → Columns → String → Value
updated core changes k = if has_key changes k then get changes k else get core k

-- After the update a column has Disciple.Tools' value where that has one that is neither missing
-- nor empty, and its old value everywhere else.
merge_descriptive_lem :
    (core dt : Columns) (k : String)
    → IsDict dt
    → updated core (merge_descriptive core dt) k
      ≡ (if is_blank (get dt k) then get core k else get dt k)
unfolding merge_descriptive
merge_descriptive_lem core [] k d = refl
merge_descriptive_lem core ((j, v) ∷ dt) k d = ground (
  arith,
  merge_descriptive_lem core dt k d.1,
  merge-absent core dt k,
  get-absent dt k,
  =ₛ_iff j k,
  value_eq_sound (get core j) v,
  d.0,
)

-- The update writes no blank value and no value that the column already has.
merge_descriptive_minimal :
    (core dt : Columns)
    → All
        (λ (k, v). (is_blank v ≡ false) × (value_eq (get core k) v ≡ false))
        (merge_descriptive core dt)
unfolding merge_descriptive
merge_descriptive_minimal core [] = tt
merge_descriptive_minimal core ((j, v) ∷ dt) = elim (Bool-cases (is_blank v)) [
  | inl e ↦ rw e (merge_descriptive_minimal core dt)
  | inr e ↦ elim (Bool-cases (value_eq (get core j) v)) [
    | inl f ↦ rw (e, f) (merge_descriptive_minimal core dt)
    | inr f ↦ rw (e, f) ((e, f), merge_descriptive_minimal core dt)
  ]
]

in_texts-resp : (s t : String) (ts : List String) → s =ₛ t ≡ true → in_texts s ts ≡ in_texts t ts
in_texts-resp s t ts h = ap (λ (r : String). in_texts r ts) ((=ₛ_iff s t).0 h)

in_texts-set_union :
    (t : String) (a b : List String) → in_texts t (set_union a b) ≡ (in_texts t a || in_texts t b)
in_texts-set_union t [] b = refl
in_texts-set_union t (s ∷ a) b = ground (arith, in_texts-set_union t a b, in_texts-resp t s b)

in_texts-set_difference :
    (t : String) (a b : List String)
    → in_texts t (set_difference a b) ≡ (in_texts t a && not (in_texts t b))
in_texts-set_difference t [] b = refl
in_texts-set_difference t (s ∷ a) b =
    ground (arith, in_texts-set_difference t a b, in_texts-resp t s b)

-- An opt-out is in force after the merge exactly if it is in force in one of the two systems.
consent_never_weakened :
    (core_optouts dt_optouts : List String) (t : String)
    → in_texts t (consent_most_restrictive core_optouts dt_optouts).effective_optouts
      ≡ (in_texts t core_optouts || in_texts t dt_optouts)
unfolding consent_most_restrictive
consent_never_weakened core_optouts dt_optouts t = in_texts-set_union t core_optouts dt_optouts

-- The interests to add are those of Disciple.Tools that the contact lacks; with them it has an
-- interest exactly if one of the two systems has it.
interests_union :
    (core_keys dt_keys : List String) (t : String)
    → let added = interests_to_add core_keys dt_keys in
      ((in_texts t added && in_texts t core_keys) ≡ false)
      × ((in_texts t core_keys || in_texts t added) ≡ (in_texts t core_keys || in_texts t dt_keys))
unfolding interests_to_add
interests_union core_keys dt_keys t = ground (arith, in_texts-set_difference t dt_keys core_keys)
