-- ===== src/Decide/Capacity.antt =====
-- The capacity counter: `_try_increment_capacity` and `_try_decrement_capacity`.
use jp_adopt_core.Prelude.{ℕ, ◌+◌, ◌-◌, Bool, true, false, none, some, List, if◌then◌else◌, ltb}
use jp_adopt_core.Matching.Rows.{FacilitatingOrg}
use jp_adopt_core.Decide.Rows.{find_org, update_org}

abbrev pub reserve_slot : ℕ → FacilitatingOrg → FacilitatingOrg
reserve_slot now o = record o {
  capacity_committed = o.capacity_committed + 1;
  last_assigned_at = some now;
}

-- The guarded UPDATE, and whether it changed a row.
unfoldable pub try_increment_capacity : ℕ → ℕ → List FacilitatingOrg → Bool × List FacilitatingOrg
try_increment_capacity now org_id orgs = elim (find_org org_id orgs) [
  | none ↦ (false, orgs)
  | some o ↦
      if ltb o.capacity_committed o.capacity_total
      then (true, update_org org_id (reserve_slot now) orgs)
      else (false, orgs)
]

abbrev pub release_slot : FacilitatingOrg → FacilitatingOrg
release_slot o =
    if ltb 0 o.capacity_committed
    then record o { capacity_committed = o.capacity_committed - 1 }
    else o

unfoldable pub try_decrement_capacity : ℕ → List FacilitatingOrg → List FacilitatingOrg
try_decrement_capacity org_id orgs = update_org org_id release_slot orgs
