-- ===== src/Matching/Score.antt =====
-- The score vector and its weighted sum.
use jp_adopt_core.Prelude.{
  ◌-◌, String, Option, none, some, List, [], ◌∷◌, map, if◌then◌else◌, ◌=ₛ◌, ◌==◌, in_texts, length,
}
use jp_adopt_core.Models.{Contact}
use jp_adopt_core.Matching.Rows.{FacilitatingOrg}
use jp_adopt_core.Matching.Floats.{Floats}

-- A vector of the five signals: `ScoreVector`, and `MatchingWeights`.
pub record Signals (F : Type 0) : Type 0 where
  pub capacity_headroom : F
  pub geography : F
  pub language : F
  pub fpg_affinity : F
  pub theological : F

-- `{…}` of a list, each text once.
abbrev pub text_set : List String → List String
text_set [] = []
text_set (t ∷ ts) = if in_texts t ts then text_set ts else t ∷ text_set ts

-- `a & b` and `a | b` of sets
abbrev pub intersection : List String → List String → List String
intersection [] b = []
intersection (t ∷ ts) b = if in_texts t b then t ∷ intersection ts b else intersection ts b

abbrev pub union : List String → List String → List String
union a [] = a
union a (t ∷ ts) = if in_texts t a then union a ts else t ∷ union a ts

module _ {F : Type 0} (fl : Floats F) where
  open fl use {ratio, add, mul, leb}

  abbrev pub zero_score : F
  zero_score = ratio 0 1

  abbrev pub one_score : F
  one_score = ratio 1 1

  -- `min(x, 1.0)`
  abbrev pub min_one : F → F
  min_one x = if leb x one_score then x else one_score

  abbrev pub default_weights : Signals F
  default_weights = record {
    capacity_headroom = ratio 40 100;
    geography = ratio 30 100;
    language = ratio 15 100;
    fpg_affinity = ratio 10 100;
    theological = ratio 5 100;
  }

  -- `MatchingWeights.sum`
  unfoldable pub weights_sum : Signals F → F
  weights_sum w =
      add (add (add (add w.capacity_headroom w.geography) w.language) w.fpg_affinity) w.theological

  -- `ScoreVector.weighted_total`
  unfoldable pub weighted_total : Signals F → Signals F → F
  weighted_total v w =
      add
        (add
          (add (add (mul v.capacity_headroom w.capacity_headroom) (mul v.geography w.geography))
            (mul v.language w.language))
          (mul v.fpg_affinity w.fpg_affinity))
        (mul v.theological w.theological)

  -- `_capacity_headroom_score`; the CHECK constraints make the difference exact, and
  -- CAPACITY_DIVIDE_BY_ZERO_FALLBACK is 1.
  unfoldable pub capacity_headroom_score : FacilitatingOrg → F
  capacity_headroom_score o =
      let total = if o.capacity_total == 0 then 1 else o.capacity_total in
      min_one (ratio (o.capacity_total - o.capacity_committed) total)

  -- A missing or empty code is false in Python.
  abbrev pub truthy : Option String → Option String
  truthy none = none
  truthy (some t) = if t =ₛ "" then none else some t

  abbrev pub same_code : Option String → Option String → F
  same_code none d = zero_score
  same_code (some c) none = zero_score
  same_code (some c) (some d) = if c =ₛ d then one_score else zero_score

  -- `_geography_score`
  unfoldable pub geography_score : Contact → FacilitatingOrg → F
  geography_score c o = same_code (truthy c.country_code) (truthy o.country_code)

  -- `len(a & b) / len(a | b)`
  abbrev pub overlap : List String → List String → F
  overlap a b =
      if length (union a b) == 0
      then zero_score
      else ratio (length (intersection a b)) (length (union a b))

  -- The body of `_language_score`; `lower` is `str.lower`.
  abbrev pub compare_codes : (String → String) → List String → List String → F
  compare_codes lower [] ds = zero_score
  compare_codes lower (c ∷ cs) [] = zero_score
  compare_codes lower (c ∷ cs) (d ∷ ds) =
      overlap (text_set (map lower (c ∷ cs))) (text_set (map lower (d ∷ ds)))

  -- `_language_score`
  unfoldable pub language_score : (String → String) → Contact → FacilitatingOrg → F
  language_score lower c o = compare_codes lower c.language_codes o.language_codes

  -- `_fpg_affinity_score`
  unfoldable pub fpg_affinity_score : String → List String → F
  fpg_affinity_score people_id3 covered =
      if in_texts people_id3 covered then one_score else zero_score

  -- `_theological_score`
  unfoldable pub theological_score : Contact → FacilitatingOrg → F
  theological_score c o = zero_score

  -- `score`
  unfoldable pub score :
      (String → String) → Contact → FacilitatingOrg → String → List String → Signals F
  score lower c o people_id3 covered = record {
    capacity_headroom = capacity_headroom_score o;
    geography = geography_score c o;
    language = language_score lower c o;
    fpg_affinity = fpg_affinity_score people_id3 covered;
    theological = theological_score c o;
  }
