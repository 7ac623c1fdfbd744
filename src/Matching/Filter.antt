-- ===== src/Matching/Filter.antt =====
-- The hard filter.
use jp_adopt_core.Prelude.{
  ℕ, ◌<◌, String, ◌≡◌, ◌↔◌, true, false, not, List, if◌then◌else◌, in_ids, in_texts, leb, arith,
}
use jp_adopt_core.Matching.Rows.{FacilitatingOrg}

pub data FilterReason : Type 0 where
  passed inactive no_capacity no_coverage excluded manual_override : FilterReason

unfoldable pub hard_filter : FacilitatingOrg → String → List String → List ℕ → FilterReason
hard_filter facilitator people_id3 covered excluded_ids =
    if in_ids facilitator.id excluded_ids
    then excluded
    else if not facilitator.active
    then inactive
    else if leb facilitator.capacity_total facilitator.capacity_committed
    then no_capacity
    else if not (in_texts people_id3 covered)
    then no_coverage
    else passed

-- A facilitator passes exactly when it is active, has free capacity, covers the people group and
-- is not excluded.
pub hard_filter_passes :
    (o : FacilitatingOrg) (people_id3 : String) (covered : List String) (excluded_ids : List ℕ)
    → (hard_filter o people_id3 covered excluded_ids ≡ passed) ↔ (
        (in_ids o.id excluded_ids ≡ false)
        × (o.active ≡ true)
        × (o.capacity_committed < o.capacity_total)
        × (in_texts people_id3 covered ≡ true))
unfolding hard_filter
hard_filter_passes o p c e = (λ h. ground arith, λ h. ground arith)
