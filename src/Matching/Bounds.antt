-- ===== src/Matching/Bounds.antt =====
-- The bounds of the score.
use jp_adopt_core.Prelude.{◌-◌, ◌≤◌, String, ◌≡◌, true, Option, List, [], ◌∷◌, map, length, arith}
use jp_adopt_core.Models.{Contact}
use jp_adopt_core.Matching.Rows.{FacilitatingOrg}
use jp_adopt_core.Matching.Floats.{Floats, FloatLaws}
use jp_adopt_core.Matching.Score.{
  Signals, text_set, intersection, union, zero_score, one_score, weights_sum, weighted_total,
  capacity_headroom_score, truthy, same_code, geography_score, overlap, compare_codes,
  language_score, fpg_affinity_score, theological_score, score,
}

length-intersection-le : (a b : List String) → length (intersection a b) ≤ length a
length-intersection-le [] b = omega arith
length-intersection-le (t ∷ ts) b = ground (arith, length-intersection-le ts b)

length-le-union : (a b : List String) → length a ≤ length (union a b)
length-le-union a [] = omega arith
length-le-union a (t ∷ ts) = ground (arith, length-le-union a ts)

-- Weights that are not negative.
abbrev pub AreWeights : {F : Type 0} → Floats F → Signals F → Type 0
AreWeights fl w =
    (fl.leb (zero_score fl) w.capacity_headroom ≡ true)
    × (fl.leb (zero_score fl) w.geography ≡ true)
    × (fl.leb (zero_score fl) w.language ≡ true)
    × (fl.leb (zero_score fl) w.fpg_affinity ≡ true)
    × (fl.leb (zero_score fl) w.theological ≡ true)

module _ {F : Type 0} (fl : Floats F) (laws : FloatLaws fl) where
  -- In the range from 0 to 1.
  abbrev pub IsUnit : F → Type 0
  IsUnit x = (fl.leb (zero_score fl) x ≡ true) × (fl.leb x (one_score fl) ≡ true)

  zero_one : IsUnit (zero_score fl) × IsUnit (one_score fl)
  zero_one = (
    (laws.ratio_nonneg 0 1, laws.ratio_le_one 0 1 (omega arith) (omega arith)),
    (laws.ratio_nonneg 1 1, laws.ratio_le_one 1 1 (omega arith) (omega arith)),
  )

  capacity-IsUnit : (o : FacilitatingOrg) → IsUnit (capacity_headroom_score fl o)
  unfolding capacity_headroom_score
  capacity-IsUnit o = ground (
    arith,
    zero_one,
    laws.ratio_nonneg (o.capacity_total - o.capacity_committed) o.capacity_total,
    laws.ratio_nonneg (o.capacity_total - o.capacity_committed) 1,
  )

  same_code-IsUnit : (c d : Option String) → IsUnit (same_code fl c d)
  same_code-IsUnit c d = ground (arith, zero_one)

  overlap-IsUnit : (a b : List String) → IsUnit (overlap fl a b)
  overlap-IsUnit a b = ground (
    arith,
    zero_one,
    laws.ratio_nonneg (length (intersection a b)) (length (union a b)),
    laws.ratio_le_one (length (intersection a b)) (length (union a b)),
    length-intersection-le a b,
    length-le-union a b,
  )

  compare_codes-IsUnit :
      (lower : String → String) (a b : List String) → IsUnit (compare_codes fl lower a b)
  compare_codes-IsUnit lower [] b = zero_one.0
  compare_codes-IsUnit lower (c ∷ cs) [] = zero_one.0
  compare_codes-IsUnit lower (c ∷ cs) (d ∷ ds) =
      overlap-IsUnit (text_set (map lower (c ∷ cs))) (text_set (map lower (d ∷ ds)))

  -- Every signal of a score lies between 0 and 1.
  score_units :
      (lower : String → String) (c : Contact) (o : FacilitatingOrg) (p : String)
      (covered : List String)
      → let v = score fl lower c o p covered in
        IsUnit v.capacity_headroom
        × IsUnit v.geography
        × IsUnit v.language
        × IsUnit v.fpg_affinity
        × IsUnit v.theological
  unfolding score geography_score language_score fpg_affinity_score theological_score
  score_units lower c o p covered = (
    capacity-IsUnit o,
    same_code-IsUnit (truthy fl c.country_code) (truthy fl o.country_code),
    compare_codes-IsUnit lower c.language_codes o.language_codes,
    ground (arith, zero_one),
    zero_one.0,
  )

  -- Under weights that are not negative, the weighted total of a score is at most the sum of the
  -- weights.
  score_bounded :
      (lower : String → String) (c : Contact) (o : FacilitatingOrg) (p : String)
      (covered : List String)
      → (w : Signals F) → AreWeights fl w
      → fl.leb (weighted_total fl (score fl lower c o p covered) w) (weights_sum fl w) ≡ true
  unfolding weighted_total weights_sum
  score_bounded lower c o p covered w n =
      let v = score fl lower c o p covered in
      let u = score_units lower c o p covered in
      laws.add_mono _ _ _ _
        (laws.add_mono _ _ _ _
          (laws.add_mono _ _ _ _
            (laws.add_mono _ _ _ _ (laws.mul_le _ _ u.0.1 n.0) (laws.mul_le _ _ u.1.1 n.1))
            (laws.mul_le _ _ u.2.1 n.2))
          (laws.mul_le _ _ u.3.1 n.3))
        (laws.mul_le _ _ u.4.1 n.4)
