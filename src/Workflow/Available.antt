-- ===== src/Workflow/Available.antt =====
-- `available_transitions` against the lookup that `_transition_generic` makes.
use jp_adopt_core.Prelude.{
  String, ◌≡◌, Bool, false, Option, none, some, List, [], ◌∷◌, if◌then◌else◌, arith, in_texts,
}
use jp_adopt_core.Workflow.States.{
  AdopterState, FacilitatorState, adopter_states, facilitator_states,
}
use jp_adopt_core.Workflow.Tables.{TransitionSpec}
use jp_adopt_core.Workflow.Lookup.{
  Side, adopter_side, facilitator_side, lookup_spec, available_transitions,
}

-- Whether a role may take the transition that a lookup found.
abbrev pub allows : String → Option TransitionSpec → Bool
allows role none = false
allows role (some spec) = in_texts role spec.allowed_roles

-- The states, among some, that a role may move to from `frm`.
abbrev pub permitted_among : {S : Type 0} → Side S → S → String → List S → List S
permitted_among side frm role [] = []
permitted_among side frm role (to ∷ rest) =
    if allows role (lookup_spec side frm to)
    then to ∷ permitted_among side frm role rest
    else permitted_among side frm role rest

-- For every adopter state and every role, known or not, `available_transitions` lists exactly the
-- states for which the lookup of a transition's spec succeeds and the spec allows the role, each
-- once and in declaration order.
available_adopter_lem :
    (frm : AdopterState) (role : String)
    → available_transitions adopter_side frm role
      ≡ permitted_among adopter_side frm role adopter_states
unfolding available_transitions lookup_spec
available_adopter_lem AdopterState.draft role = ground arith
available_adopter_lem _ role = ground arith

-- For every facilitator state and every role, known or not, `available_transitions` lists exactly
-- the states for which the lookup of a transition's spec succeeds and the spec allows the role, each
-- once and in declaration order.
available_facilitator_lem :
    (frm : FacilitatorState) (role : String)
    → available_transitions facilitator_side frm role
      ≡ permitted_among facilitator_side frm role facilitator_states
unfolding available_transitions lookup_spec
available_facilitator_lem FacilitatorState.draft role = ground arith
available_facilitator_lem _ role = ground arith
