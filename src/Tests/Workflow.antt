-- ===== src/Tests/Workflow.antt =====
-- Transitions on concrete contacts.
use jp_adopt_core.Prelude.{false, ◌≡◌, ◌≢◌, ◌↔◌, refl, true, none, some, [], ◌∷◌}
use jp_adopt_core.Text.{codes}
use jp_adopt_core.Models.{Contact, TransitionAudit}
use jp_adopt_core.Outbox.{transition_payload, OutboxRow, Session, SuppressionContext, emit_outbox}
use jp_adopt_core.Workflow.States.{AdopterState, FacilitatorState}
use jp_adopt_core.Workflow.Tables.{
  TransitionSpec, EventType, event_value, spec, adoption_manager_or_admin, facilitator_or_admin,
}
use jp_adopt_core.Workflow.Lookup.{adopter_side, facilitator_side, lookup_spec, in_states}
use jp_adopt_core.Workflow.Transition.{
  reason_text_of, ok, err, illegal_transition, World, Request, transition_generic, validate_reason,
  lock_and_check_version, write_transition, concurrent_modification, select_version,
}
use jp_adopt_core.Workflow.Policy.{Journey, start, then, move, active_needs_match}
use jp_adopt_core.Workflow.Acceptance.{IsAcceptable, transition_accepts}
use jp_adopt_core.Workflow.Effects.{
  adopter_side-IsColumn, accepted_bumps_version, stale_object_refused, accepted_emits,
}

abbrev ada : Contact
ada = record {
  id = 7;
  party_kind = "adopter";
  display_name = "Ada";
  adopter_status = some "matched";
  facilitator_status = none;
  version = 3;
  b2c_subject_id = none;
  email_normalized = some (codes "ada@example.org");
  source_system = none;
  source_id = none;
  origin = none;
  newsletter_opt_in = false;
  country_code = some "NL";
  language_codes = "nl" ∷ [];
  created_at = 100;
  updated_at = 100;
}

abbrev ben : Contact
ben = record ada { id = 8; version = 5; adopter_status = none }

abbrev quiet : Session
quiet = record { contacts = ben ∷ ada ∷ []; outbox = []; audits = []; active = none }

abbrev importing : SuppressionContext
importing = record {
  label = "airtable";
  started_at = 90;
  event_counts = ("jp.adopt.v1.contact.submitted", 2) ∷ [];
  metadata = [];
}

abbrev world : World
world = record { session = quiet; contact = ada }

abbrev suppressed_world : World
suppressed_world = record { session = record quiet { active = some importing }; contact = ada }

abbrev accept : Request AdopterState
accept = record {
  to_state = AdopterState.active;
  actor_b2c_sub = "sub-1";
  actor_role = "facilitator";
  reason_code = none;
  reason_text = none;
  now = 200;
  audit_id = 31;
  outbox_id = 41;
}

abbrev submit : Request FacilitatorState
submit = record {
  to_state = FacilitatorState.new;
  actor_b2c_sub = "sub-2";
  actor_role = "staff_admin";
  reason_code = none;
  reason_text = none;
  now = 201;
  audit_id = 32;
  outbox_id = 42;
}

-- A request that a matched contact may not make.
abbrev skip : Request AdopterState
skip = record accept { to_state = AdopterState.engaged }

accept_ok : (transition_generic adopter_side accept world).0 ≡ ok tt
unfolding transition_generic validate_reason lock_and_check_version write_transition lookup_spec
    emit_outbox
accept_ok = refl

accept_suppressed_ok : (transition_generic adopter_side accept suppressed_world).0 ≡ ok tt
unfolding transition_generic validate_reason lock_and_check_version write_transition lookup_spec
    emit_outbox
accept_suppressed_ok = refl

skip_refused :
    (transition_generic adopter_side skip world).0 ≡ err (illegal_transition "matched" "engaged")
unfolding transition_generic validate_reason lock_and_check_version write_transition lookup_spec
    emit_outbox
skip_refused = refl

-- The other side's transition from the old object, after the first one.
stale_error :
    let s' = (transition_generic adopter_side accept world).1.session in
    (transition_generic facilitator_side submit (record { session = s'; contact = ada })).0
    ≡ err (concurrent_modification 7 3 4)
unfolding transition_generic validate_reason lock_and_check_version write_transition lookup_spec
    emit_outbox
stale_error = refl

transition_accepts_example :
    ((transition_generic adopter_side accept world).0 ≡ ok tt)
    ↔ IsAcceptable adopter_side accept world
transition_accepts_example = transition_accepts adopter_side accept world

accepted_bumps_version_example :
    let w' = (transition_generic adopter_side accept world).1 in
    (w'.contact.version ≡ 4)
    × (w'.contact.id ≡ 7)
    × (w'.contact.adopter_status ≡ some "active")
    × (select_version 8 w'.session.contacts ≡ some 5)
accepted_bumps_version_example =
    accepted_bumps_version adopter_side adopter_side-IsColumn accept world 8 accept_ok

stale_object_refused_example :
    let s' = (transition_generic adopter_side accept world).1.session in
    (transition_generic facilitator_side submit (record { session = s'; contact = ada })).0 ≢ ok tt
stale_object_refused_example =
    stale_object_refused adopter_side adopter_side-IsColumn facilitator_side accept submit world ada
      accept_ok refl refl

accepted_emits_example :
    let s' = (transition_generic adopter_side accept world).1.session in
    (frm : AdopterState) × (spec : TransitionSpec) × (row : OutboxRow) × (audit : TransitionAudit)
    × (some AdopterState.matched ≡ some frm)
    × (lookup_spec adopter_side frm AdopterState.active ≡ some spec)
    × (s'.outbox ≡ row ∷ [])
    × (s'.audits ≡ audit ∷ [])
    × (row.event_type ≡ event_value spec.event_type)
    × (row.payload_json
        ≡ transition_payload
            (event_value spec.event_type)
            "1"
            accept.now
            7
            (adopter_side.value frm)
            "active"
            accept.actor_b2c_sub
            accept.actor_role
            (reason_text_of accept.reason_code)
            accept.reason_text)
    × (audit.outbox_event_ids ≡ some (row.id ∷ []))
    × (audit.contact_id ≡ 7)
    × (audit.from_state ≡ adopter_side.value frm)
    × (audit.to_state ≡ "active")
accepted_emits_example = accepted_emits adopter_side accept world refl accept_ok

back_to_new :
    lookup_spec adopter_side AdopterState.engaged AdopterState.new
    ≡ some (spec adoption_manager_or_admin EventType.contact_reclassified)
unfolding lookup_spec
back_to_new = refl

new_to_matched :
    lookup_spec adopter_side AdopterState.new AdopterState.matched
    ≡ some (spec adoption_manager_or_admin EventType.match_assigned)
unfolding lookup_spec
new_to_matched = refl

matched_to_active :
    lookup_spec adopter_side AdopterState.matched AdopterState.active
    ≡ some (spec facilitator_or_admin EventType.match_accepted)
unfolding lookup_spec
matched_to_active = refl

shortest-Journey :
    Journey AdopterState.new AdopterState.active (AdopterState.active ∷ AdopterState.matched ∷ [])
shortest-Journey =
    then
      (then start (move (spec adoption_manager_or_admin EventType.match_assigned) new_to_matched))
      (move (spec facilitator_or_admin EventType.match_accepted) matched_to_active)

active_needs_match_example :
    in_states adopter_side AdopterState.matched (AdopterState.active ∷ AdopterState.matched ∷ [])
    ≡ true
active_needs_match_example = active_needs_match shortest-Journey refl refl
