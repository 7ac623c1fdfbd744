-- ===== src/Workflow/Tables.antt =====
-- The transition specs and the transition tables of state_machine.py, entry by entry.
use jp_adopt_core.Prelude.{String, Bool, false, Option, none, some, List, [], ◌∷◌}
use jp_adopt_core.Workflow.States.{AdopterState, FacilitatorState, ReasonCode}

abbrev pub role_staff_admin : String
role_staff_admin = "staff_admin"

abbrev pub role_adoption_manager : String
role_adoption_manager = "adoption_manager"

abbrev pub role_triage_facilitator : String
role_triage_facilitator = "triage_facilitator"

abbrev pub role_facilitator : String
role_facilitator = "facilitator"

abbrev pub any_role : List String
any_role =
    role_staff_admin ∷ role_adoption_manager ∷ role_triage_facilitator ∷ role_facilitator ∷ []

abbrev pub adoption_manager_or_admin : List String
adoption_manager_or_admin = role_adoption_manager ∷ role_staff_admin ∷ []

abbrev pub adoption_manager_triage_admin : List String
adoption_manager_triage_admin =
    role_adoption_manager ∷ role_triage_facilitator ∷ role_staff_admin ∷ []

abbrev pub facilitator_or_admin : List String
facilitator_or_admin = role_facilitator ∷ role_staff_admin ∷ []

abbrev pub all_reason_codes : List ReasonCode
all_reason_codes =
    ReasonCode.capacity_full ∷ ReasonCode.geography_mismatch ∷ ReasonCode.language
    ∷ ReasonCode.theological_concern ∷ ReasonCode.not_ready ∷ ReasonCode.other ∷ []

-- The event types that a transition emits.
pub data EventType : Type 0 where
  contact_submitted contact_triaged_no_fpg contact_contacted contact_engaged match_assigned
        match_sent_back match_reassigned match_accepted contact_deactivated contact_do_not_engage
        contact_reclassified facilitator_submitted facilitator_marked_not_ready
        facilitator_marked_ready facilitator_do_not_engage facilitator_reclassified :
      EventType

abbrev pub event_value : EventType → String
event_value EventType.contact_submitted = "jp.adopt.v1.contact.submitted"
event_value EventType.contact_triaged_no_fpg = "jp.adopt.v1.contact.triaged_no_fpg"
event_value EventType.contact_contacted = "jp.adopt.v1.contact.contacted"
event_value EventType.contact_engaged = "jp.adopt.v1.contact.engaged"
event_value EventType.match_assigned = "jp.adopt.v1.match.assigned"
event_value EventType.match_sent_back = "jp.adopt.v1.match.sent_back"
event_value EventType.match_reassigned = "jp.adopt.v1.match.reassigned"
event_value EventType.match_accepted = "jp.adopt.v1.match.accepted"
event_value EventType.contact_deactivated = "jp.adopt.v1.contact.deactivated"
event_value EventType.contact_do_not_engage = "jp.adopt.v1.contact.do_not_engage"
event_value EventType.contact_reclassified = "jp.adopt.v1.contact.reclassified"
event_value EventType.facilitator_submitted = "jp.adopt.v1.facilitator.submitted"
event_value EventType.facilitator_marked_not_ready = "jp.adopt.v1.facilitator.marked_not_ready"
event_value EventType.facilitator_marked_ready = "jp.adopt.v1.facilitator.marked_ready"
event_value EventType.facilitator_do_not_engage = "jp.adopt.v1.facilitator.do_not_engage"
event_value EventType.facilitator_reclassified = "jp.adopt.v1.facilitator.reclassified"

pub record TransitionSpec : Type 0 where
  pub allowed_roles : List String
  pub requires_reason : Bool
  pub event_type : EventType
  pub reason_codes : Option (List ReasonCode)

-- `TransitionSpec(allowed_roles=…, requires_reason=False, event_type=…)`
abbrev pub spec : List String → EventType → TransitionSpec
spec roles event = record {
  allowed_roles = roles;
  requires_reason = false;
  event_type = event;
  reason_codes = none;
}

-- One item of a transition table: the pair of states and its spec.
abbrev pub Entry : Type 0 → Type 0
Entry S = S × S × TransitionSpec

abbrev pub adopter_transitions : List (Entry AdopterState)
adopter_transitions =
    (AdopterState.draft, AdopterState.new, spec any_role EventType.contact_submitted)
    ∷ (
      AdopterState.new,
      AdopterState.potential_adopter,
      spec adoption_manager_triage_admin EventType.contact_triaged_no_fpg,
    )
    ∷ (
      AdopterState.new,
      AdopterState.contacted,
      spec adoption_manager_or_admin EventType.contact_contacted,
    )
    ∷ (
      AdopterState.potential_adopter,
      AdopterState.contacted,
      spec adoption_manager_triage_admin EventType.contact_contacted,
    )
    ∷ (
      AdopterState.contacted,
      AdopterState.engaged,
      spec adoption_manager_or_admin EventType.contact_engaged,
    )
    ∷ (
      AdopterState.engaged,
      AdopterState.matched,
      spec adoption_manager_or_admin EventType.match_assigned,
    )
    ∷ (
      AdopterState.new,
      AdopterState.matched,
      spec adoption_manager_or_admin EventType.match_assigned,
    )
    ∷ (
      AdopterState.potential_adopter,
      AdopterState.matched,
      spec adoption_manager_or_admin EventType.match_assigned,
    )
    ∷ (
      AdopterState.contacted,
      AdopterState.matched,
      spec adoption_manager_or_admin EventType.match_assigned,
    )
    ∷ (
      AdopterState.matched,
      AdopterState.sent_back,
      record {
        allowed_roles = facilitator_or_admin;
        requires_reason = false;
        event_type = EventType.match_sent_back;
        reason_codes = some all_reason_codes;
      },
    )
    ∷ (
      AdopterState.sent_back,
      AdopterState.matched,
      spec adoption_manager_or_admin EventType.match_reassigned,
    )
    ∷ (
      AdopterState.matched,
      AdopterState.active,
      spec facilitator_or_admin EventType.match_accepted,
    )
    ∷ (
      AdopterState.active,
      AdopterState.inactive,
      spec adoption_manager_or_admin EventType.contact_deactivated,
    )
    ∷ (
      AdopterState.potential_adopter,
      AdopterState.new,
      spec adoption_manager_or_admin EventType.contact_reclassified,
    )
    ∷ (
      AdopterState.contacted,
      AdopterState.new,
      spec adoption_manager_or_admin EventType.contact_reclassified,
    )
    ∷ (
      AdopterState.contacted,
      AdopterState.potential_adopter,
      spec adoption_manager_or_admin EventType.contact_reclassified,
    )
    ∷ (
      AdopterState.engaged,
      AdopterState.new,
      spec adoption_manager_or_admin EventType.contact_reclassified,
    )
    ∷ (
      AdopterState.engaged,
      AdopterState.potential_adopter,
      spec adoption_manager_or_admin EventType.contact_reclassified,
    )
    ∷ (
      AdopterState.engaged,
      AdopterState.contacted,
      spec adoption_manager_or_admin EventType.contact_reclassified,
    )
    ∷ (
      AdopterState.new,
      AdopterState.draft,
      spec adoption_manager_or_admin EventType.contact_reclassified,
    )
    ∷ (
      AdopterState.potential_adopter,
      AdopterState.draft,
      spec adoption_manager_or_admin EventType.contact_reclassified,
    )
    ∷ (
      AdopterState.contacted,
      AdopterState.draft,
      spec adoption_manager_or_admin EventType.contact_reclassified,
    )
    ∷ (
      AdopterState.engaged,
      AdopterState.draft,
      spec adoption_manager_or_admin EventType.contact_reclassified,
    )
    ∷ []

-- ADOPTER_UNIVERSAL_TRANSITIONS: targets that every other state may go to.
abbrev pub adopter_universal_transitions : List (AdopterState × TransitionSpec)
adopter_universal_transitions =
    (AdopterState.do_not_engage, spec adoption_manager_or_admin EventType.contact_do_not_engage)
    ∷ []

abbrev pub facilitator_transitions : List (Entry FacilitatorState)
facilitator_transitions =
    (FacilitatorState.draft, FacilitatorState.new, spec any_role EventType.facilitator_submitted)
    ∷ (
      FacilitatorState.new,
      FacilitatorState.not_ready,
      spec adoption_manager_or_admin EventType.facilitator_marked_not_ready,
    )
    ∷ (
      FacilitatorState.new,
      FacilitatorState.ready,
      spec adoption_manager_or_admin EventType.facilitator_marked_ready,
    )
    ∷ (
      FacilitatorState.not_ready,
      FacilitatorState.ready,
      spec adoption_manager_or_admin EventType.facilitator_marked_ready,
    )
    ∷ (
      FacilitatorState.ready,
      FacilitatorState.not_ready,
      spec adoption_manager_or_admin EventType.facilitator_reclassified,
    )
    ∷ (
      FacilitatorState.ready,
      FacilitatorState.new,
      spec adoption_manager_or_admin EventType.facilitator_reclassified,
    )
    ∷ (
      FacilitatorState.not_ready,
      FacilitatorState.new,
      spec adoption_manager_or_admin EventType.facilitator_reclassified,
    )
    ∷ (
      FacilitatorState.new,
      FacilitatorState.draft,
      spec adoption_manager_or_admin EventType.facilitator_reclassified,
    )
    ∷ (
      FacilitatorState.not_ready,
      FacilitatorState.draft,
      spec adoption_manager_or_admin EventType.facilitator_reclassified,
    )
    ∷ (
      FacilitatorState.ready,
      FacilitatorState.draft,
      spec adoption_manager_or_admin EventType.facilitator_reclassified,
    )
    ∷ []

abbrev pub facilitator_universal_transitions : List (FacilitatorState × TransitionSpec)
facilitator_universal_transitions =
    (
      FacilitatorState.do_not_engage,
      spec adoption_manager_or_admin EventType.facilitator_do_not_engage,
    )
    ∷ []
