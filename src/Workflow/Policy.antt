-- ===== src/Workflow/Policy.antt =====
-- What the transition tables allow: which moves are corrections, who may move a contact, and which
-- states a contact must pass through.
use jp_adopt_core.Prelude.{
  String, ◌≡◌, ◌↔◌, ◌<◌, ◌⊎◌, Bool, true, false, none, some, List, [], ◌∷◌, arith, in_texts,
}
use jp_adopt_core.Workflow.States.{AdopterState, adopter_index}
use jp_adopt_core.Workflow.Tables.{TransitionSpec, EventType, any_role, role_staff_admin}
use jp_adopt_core.Workflow.Lookup.{adopter_side, lookup_spec, in_states}

-- The states before a match.
abbrev pub is_pre_match : AdopterState → Bool
is_pre_match AdopterState.draft = true
is_pre_match AdopterState.new = true
is_pre_match AdopterState.potential_adopter = true
is_pre_match AdopterState.contacted = true
is_pre_match AdopterState.engaged = true
is_pre_match _ = false

-- A legal adopter transition emits the `reclassified` event exactly when both of its states are
-- before a match and it goes backwards in declaration order.
corrections_reclassify :
    (frm to : AdopterState) {spec : TransitionSpec}
    → lookup_spec adopter_side frm to ≡ some spec
    → (spec.event_type ≡ EventType.contact_reclassified) ↔ (
        (is_pre_match frm ≡ true)
        × (is_pre_match to ≡ true)
        × (adopter_index to < adopter_index frm))
unfolding lookup_spec
corrections_reclassify AdopterState.draft to h = (λ e. ground arith, λ e. ground arith)
corrections_reclassify _ to h = (λ e. ground arith, λ e. ground arith)

-- No adopter transition leaves `do_not_engage`, and every state but itself may go there.
do_not_engage_absorbs :
    (s : AdopterState)
    → (lookup_spec adopter_side AdopterState.do_not_engage s ≡ none)
      × ((lookup_spec adopter_side s AdopterState.do_not_engage ≡ none)
          ↔ (s ≡ AdopterState.do_not_engage))
unfolding lookup_spec
do_not_engage_absorbs AdopterState.draft = (ground arith, (λ e. ground arith, λ e. ground arith))
do_not_engage_absorbs _ = (ground arith, (λ e. ground arith, λ e. ground arith))

-- A role that a legal adopter transition allows is one of the four known roles, and `staff_admin`
-- is allowed whenever the transition is legal.
allowed_roles_known :
    (frm to : AdopterState) (role : String) {spec : TransitionSpec}
    → lookup_spec adopter_side frm to ≡ some spec
    → in_texts role spec.allowed_roles ≡ true
    → (in_texts role any_role ≡ true) × (in_texts role_staff_admin spec.allowed_roles ≡ true)
unfolding lookup_spec
allowed_roles_known AdopterState.draft to role h r = ground arith
allowed_roles_known _ to role h r = ground arith

-- A legal move of the adopter side.
pub data Move : AdopterState → AdopterState → Type 0 where
  move :
      {frm to : AdopterState} (spec : TransitionSpec)
      → lookup_spec adopter_side frm to ≡ some spec
      → Move frm to

-- A sequence of legal moves, with the states entered on the way.
pub data Journey (s : AdopterState) : AdopterState → List AdopterState → Type 0 where
  start : Journey s s []
  then :
      {t u : AdopterState} {visited : List AdopterState}
      → Journey s t visited
      → Move t u
      → Journey s u (u ∷ visited)

-- A match, and the states that follow one.
abbrev pub is_matched_or_later : AdopterState → Bool
is_matched_or_later AdopterState.matched = true
is_matched_or_later AdopterState.sent_back = true
is_matched_or_later AdopterState.active = true
is_matched_or_later AdopterState.inactive = true
is_matched_or_later _ = false

enters_by_match :
    (t u : AdopterState) (spec : TransitionSpec)
    → lookup_spec adopter_side t u ≡ some spec
    → is_matched_or_later u ≡ true
    → (is_matched_or_later t ≡ true) ⊎ (u ≡ AdopterState.matched)
unfolding lookup_spec
enters_by_match AdopterState.draft u spec h l = ground arith
enters_by_match _ u spec h l = ground arith

-- A contact that starts before any match and ends matched, sent back, active or inactive has
-- entered `matched` on the way.
pub active_needs_match :
    {s t : AdopterState} {visited : List AdopterState}
    → Journey s t visited
    → is_matched_or_later s ≡ false
    → is_matched_or_later t ≡ true
    → in_states adopter_side AdopterState.matched visited ≡ true
active_needs_match start p q = cc
active_needs_match (then {t = t} {u = u} r (move spec h)) p q =
    ground (arith, enters_by_match t u spec h q, active_needs_match r p)
