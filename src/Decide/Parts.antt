-- ===== src/Decide/Parts.antt =====
-- The values that `decide_match` writes and answers.
use jp_adopt_core.Prelude.{
  ℕ, String, Bool, true, false, not, Option, none, some, if◌then◌else◌, ◌=ₛ◌, ◌==◌, ◌&&◌,
}
use jp_adopt_core.Models.{Contact}
use jp_adopt_core.Outbox.{Payload, decision_payload}
use jp_adopt_core.Workflow.States.{AdopterState, adopter_value, adopter_states, find_by_value}
use jp_adopt_core.Workflow.Transition.{Request, reason_text_of}
use jp_adopt_core.Matching.Rows.{FacilitatingOrg, Match, MatchStatus, undecided}
use jp_adopt_core.Decide.Rows.{
  Actor, DecisionVerb, accept, send_back, route_elsewhere, DecideRequest, Fresh, is_some,
}

-- `DecideResponse`, without the columns that `_build_match_summary` reads for display.
pub record Decided : Type 0 where
  pub match : Match
  pub contact_adopter_status : Option String
  pub new_match_id : Option ℕ

-- `AdopterState(status or "draft")`; `none` is the ValueError.
abbrev pub current_state : Option String → Option AdopterState
current_state none = some AdopterState.draft
current_state (some t) =
    if t =ₛ "" then some AdopterState.draft else find_by_value adopter_value adopter_states t

abbrev pub is_matched : AdopterState → Bool
is_matched AdopterState.matched = true
is_matched _ = false

abbrev pub or_else : {A : Type 0} → A → Option A → A
or_else a none = a
or_else a (some b) = b

-- The arguments of `transition_adopter`.
abbrev pub move_request :
    Actor → Fresh → DecideRequest → String → AdopterState → Request AdopterState
move_request actor fresh body role target = record {
  to_state = target;
  actor_b2c_sub = actor.sub;
  actor_role = role;
  reason_code = body.reason_code;
  reason_text = body.reason_text;
  now = fresh.now;
  audit_id = fresh.audit_id;
  outbox_id = fresh.transition_event_id;
}

-- `_stamp_decision`
abbrev pub stamp_decision : Actor → Fresh → DecideRequest → MatchStatus → Match → Match
stamp_decision actor fresh body new_status m = record m {
  status = new_status;
  decided_at = some fresh.now;
  decided_by = some actor.sub;
  decision_reason_code = reason_text_of body.reason_code;
  decision_reason_text = body.reason_text;
}

abbrev pub accepted_payload : Actor → Fresh → String → String → Match → Contact → Payload
accepted_payload actor fresh event_type role m contact =
    decision_payload event_type "jp.adopt.v1" m.id none contact.id m.facilitator_org_id none none
      actor.sub role fresh.now

abbrev pub accepted_event : Bool → String
accepted_event matched =
    if matched
    then "jp.adopt.v1.match.accepted_by_facilitator"
    else "jp.adopt.v1.match.accepted_by_manager"

-- The organisations that an override may assign.
abbrev pub is_assignable : Match → FacilitatingOrg → Bool
is_assignable m o = o.active && not o.is_triage_org && not (o.id == m.facilitator_org_id)

-- The new row of `route_elsewhere`.
abbrev pub rerouted_match : Fresh → DecideRequest → Match → ℕ → Match
rerouted_match fresh body m target_org_id =
    record (undecided fresh.match_id m.adopter_interest_id target_org_id MatchStatus.recommended) {
      is_manual_override = is_some body.facilitator_org_id;
    }

abbrev pub event_routed : String
event_routed = "jp.adopt.v1.match.routed_elsewhere"

abbrev pub routed_payload : Actor → Fresh → DecideRequest → String → Match → Contact → ℕ → Payload
routed_payload actor fresh body role m contact target_org_id =
    decision_payload event_routed "jp.adopt.v1" m.id (some fresh.match_id) contact.id
      m.facilitator_org_id (some target_org_id) (some (is_some body.facilitator_org_id)) actor.sub
      role fresh.now

-- A repeated decision that has been won already.
abbrev pub is_retry : DecisionVerb → MatchStatus → Bool
is_retry accept MatchStatus.accepted = true
is_retry accept MatchStatus.active = true
is_retry send_back MatchStatus.sent_back = true
is_retry route_elsewhere MatchStatus.declined = true
is_retry _ _ = false
