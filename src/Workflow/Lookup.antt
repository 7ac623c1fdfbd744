-- ===== src/Workflow/Lookup.antt =====
-- The two sides of the workflow, the lookup of a transition's spec, and `available_transitions`.
use jp_adopt_core.Prelude.{
  ℕ, String, Bool, false, not, Option, none, some, List, [], ◌∷◌, if◌then◌else◌, ◌==◌, ltb,
  in_texts, ◌&&◌, ◌||◌, ◌++◌,
}
use jp_adopt_core.Models.{Contact}
use jp_adopt_core.Workflow.States.{
  AdopterState, FacilitatorState, adopter_value, facilitator_value, adopter_states,
  facilitator_states, adopter_index, facilitator_index,
}
use jp_adopt_core.Workflow.Tables.{
  TransitionSpec, Entry, adopter_transitions, adopter_universal_transitions,
  facilitator_transitions, facilitator_universal_transitions,
}

-- What differs between the adopter and the facilitator side: the arguments `draft_state`,
-- `state_enum`, `spec_lookup` (as its two tables) and `status_field_name` of `_transition_generic`.
pub record Side (S : Type 0) : Type 0 where
  pub draft_state : S
  pub members : List S
  pub value : S → String
  pub index : S → ℕ
  pub transitions : List (Entry S)
  pub universal : List (S × TransitionSpec)
  pub get_status : Contact → Option String
  pub set_status : String → Contact → Contact

abbrev pub adopter_side : Side AdopterState
adopter_side = record {
  draft_state = AdopterState.draft;
  members = adopter_states;
  value = adopter_value;
  index = adopter_index;
  transitions = adopter_transitions;
  universal = adopter_universal_transitions;
  get_status = λ c. c.adopter_status;
  set_status = λ v c. record c { adopter_status = some v };
}

abbrev pub facilitator_side : Side FacilitatorState
facilitator_side = record {
  draft_state = FacilitatorState.draft;
  members = facilitator_states;
  value = facilitator_value;
  index = facilitator_index;
  transitions = facilitator_transitions;
  universal = facilitator_universal_transitions;
  get_status = λ c. c.facilitator_status;
  set_status = λ v c. record c { facilitator_status = some v };
}

module _ {S : Type 0} (side : Side S) where
  open side use {index}

  -- `UNIVERSAL[to_state]`
  abbrev pub get_universal : S → List (S × TransitionSpec) → Option TransitionSpec
  get_universal to [] = none
  get_universal to ((t, s) ∷ rest) = if index to == index t then some s else get_universal to rest

  -- `TRANSITIONS.get((from_state, to_state))`
  abbrev pub get_transition : S → S → List (Entry S) → Option TransitionSpec
  get_transition frm to [] = none
  get_transition frm to ((f, t, s) ∷ rest) =
      if index frm == index f && index to == index t then some s else get_transition frm to rest

  -- `_lookup_adopter_spec`, `_lookup_facilitator_spec`; `none` is the IllegalTransitionError.
  unfoldable pub lookup_spec : S → S → Option TransitionSpec
  lookup_spec frm to = elim (get_universal to side.universal) [
    | some s ↦
        if not (index frm == index to) then some s else get_transition frm to side.transitions
    | none ↦ get_transition frm to side.transitions
  ]

  -- `to in out`
  abbrev pub in_states : S → List S → Bool
  in_states t [] = false
  in_states t (u ∷ us) = index t == index u || in_states t us

  -- The first loop of `available_transitions`, over the items of the table.
  abbrev pub collect : S → String → List (Entry S) → List S
  collect current role [] = []
  collect current role ((f, t, s) ∷ rest) =
      if index f == index current && in_texts role s.allowed_roles
      then t ∷ collect current role rest
      else collect current role rest

  -- The second loop, over the universal targets.
  abbrev pub collect_universal : S → String → List (S × TransitionSpec) → List S → List S
  collect_universal current role [] out = out
  collect_universal current role ((t, s) ∷ rest) out = collect_universal current role rest (
      if index current == index t
      then out
      else if in_texts role s.allowed_roles && not (in_states t out)
      then out ++ t ∷ []
      else out)

  -- `sorted(out, key=index)`
  abbrev pub insert_by_index : S → List S → List S
  insert_by_index t [] = t ∷ []
  insert_by_index t (u ∷ us) =
      if ltb (index u) (index t) then u ∷ insert_by_index t us else t ∷ u ∷ us

  abbrev pub sort_by_index : List S → List S
  sort_by_index [] = []
  sort_by_index (t ∷ ts) = insert_by_index t (sort_by_index ts)

  -- `available_transitions`, for the side's kind.
  unfoldable pub available_transitions : S → String → List S
  available_transitions current role =
      sort_by_index
        (collect_universal current role side.universal (collect current role side.transitions))
