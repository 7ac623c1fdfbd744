-- ===== src/Decide/Handler.antt =====
-- `decide_match`, with its three verbs.
use jp_adopt_core.Prelude.{
  ℕ, String, Bool, not, Option, none, some, List, [], ◌∷◌, ◌++◌, if◌then◌else◌, ◌==◌, leb, ◌&&◌,
}
use jp_adopt_core.Models.{Contact}
use jp_adopt_core.Outbox.{Payload, emit_outbox}
use jp_adopt_core.Workflow.States.{AdopterState}
use jp_adopt_core.Workflow.Transition.{ok, err, transition_adopter}
use jp_adopt_core.Matching.Rows.{FacilitatingOrg, Match, MatchStatus}
use jp_adopt_core.Matching.Filter.{FilterReason}
use jp_adopt_core.Matching.Process.{MatchAttempt, reason_only, find_open}
use jp_adopt_core.Http.{
  done, fail, Handler, ◌>>=◌, ◌>>◌, pure, raise, or_raise, raise_unless, http_error,
  internal_server_error, map_state_machine_exception, atomically,
}
use jp_adopt_core.Decide.Rows.{
  Store, Actor, DecisionVerb, accept, send_back, route_elsewhere, DecideRequest, Fresh, is_some,
  validate_route_elsewhere_fields, in_queue, is_reserved, has_any, find_match, find_org,
  find_interest, find_contact, update_match,
}
use jp_adopt_core.Decide.Access.{queue_roles, staff_roles, pick_actor_role, check_decide_access}
use jp_adopt_core.Decide.Parts.{
  Decided, current_state, is_matched, or_else, stamp_decision, accepted_payload, accepted_event,
  is_assignable, move_request, rerouted_match, event_routed, routed_payload, is_retry,
}
use jp_adopt_core.Decide.Capacity.{try_increment_capacity, try_decrement_capacity}

module _ {F : Type 0} (actor : Actor) (fresh : Fresh) (body : DecideRequest) where
  -- `transition_adopter` inside the handler's `try`.
  unfoldable pub run_transition : String → Contact → AdopterState → Handler (Store F) (Unit {0})
  run_transition role contact target db =
      let (r, w) =
        transition_adopter (move_request actor fresh body role target)
          (record { session = db.session; contact = contact }) in
      elim r [
        | ok _ ↦ (done tt, record db { session = w.session })
        | err e ↦ (fail (map_state_machine_exception e), record db { session = w.session })
      ]

  abbrev pub stamp : Match → MatchStatus → Handler (Store F) (Unit {0})
  stamp m new_status db = (
    done tt,
    record db {
      tables = record db.tables {
        matches = update_match m.id (stamp_decision actor fresh body new_status) db.tables.matches;
      };
    },
  )

  abbrev pub set_orgs : List FacilitatingOrg → Store F → Store F
  set_orgs orgs db = record db { tables = record db.tables { orgs = orgs } }

  -- `ok = await _try_increment_capacity(…)`, and the 409 if it fails.
  unfoldable pub reserve : ℕ → Handler (Store F) (Unit {0})
  reserve org_id db =
      let (updated, orgs) = try_increment_capacity fresh.now org_id db.tables.orgs in
      if updated
      then (done tt, set_orgs orgs db)
      else (fail (http_error 409 "capacity_unavailable"), set_orgs orgs db)

  unfoldable pub release : ℕ → Handler (Store F) (Unit {0})
  release org_id db = (done tt, set_orgs (try_decrement_capacity org_id db.tables.orgs) db)

  unfoldable pub when : Bool → Handler (Store F) (Unit {0}) → Handler (Store F) (Unit {0})
  when b m db = if b then m db else (done tt, db)

  abbrev pub emit : String → Payload → Handler (Store F) (Unit {0})
  emit event_type payload db = (
    done tt,
    record db { session = (emit_outbox event_type payload fresh.event_id db.session).1 },
  )

  -- `decision == "accept"`
  unfoldable pub accept_match : String → Match → Contact → Handler (Store F) (Option ℕ)
  unfolding run_transition reserve when
  accept_match role m contact db =
      (do
        current ← or_raise (current_state contact.adopter_status) internal_server_error
        run_transition role contact
            (if is_matched current then AdopterState.active else AdopterState.matched)
        stamp m (if is_matched current then MatchStatus.active else MatchStatus.accepted)
        when (not (is_matched current) && not m.is_manual_override) (reserve m.facilitator_org_id)
        emit (accepted_event (is_matched current))
            (accepted_payload actor fresh (accepted_event (is_matched current)) role m contact)
        pure none)
        db

  -- `decision == "send_back"`
  unfoldable pub send_back_match : String → Match → Contact → Handler (Store F) (Option ℕ)
  unfolding run_transition release when
  send_back_match role m contact db =
      (do
        run_transition role contact AdopterState.sent_back
        stamp m MatchStatus.sent_back
        when (is_reserved m.status && not m.is_manual_override) (release m.facilitator_org_id)
        pure none)
        db

  -- A ranked attempt for this interest with another organisation.
  abbrev pub is_alternate : Match → MatchAttempt F → Bool
  is_alternate m a =
      a.adopter_interest_id == m.adopter_interest_id
      && not (a.candidate_facilitator_id == m.facilitator_org_id)
      && is_some a.rank

  -- `ORDER BY rank`
  abbrev pub insert_by_rank : MatchAttempt F → List (MatchAttempt F) → List (MatchAttempt F)
  insert_by_rank a [] = a ∷ []
  insert_by_rank a (b ∷ bs) =
      if leb (or_else 0 a.rank) (or_else 0 b.rank) then a ∷ b ∷ bs else b ∷ insert_by_rank a bs

  unfoldable pub alternates : Match → List (MatchAttempt F) → List (MatchAttempt F)
  alternates m [] = []
  alternates m (a ∷ rest) =
      if is_alternate m a then insert_by_rank a (alternates m rest) else alternates m rest

  abbrev pub find_attempt : ℕ → List (MatchAttempt F) → Option (MatchAttempt F)
  find_attempt i [] = none
  find_attempt i (a ∷ rest) = if a.id == i then some a else find_attempt i rest

  abbrev pub first_attempt : List (MatchAttempt F) → Option (MatchAttempt F)
  first_attempt [] = none
  first_attempt (a ∷ rest) = some a

  abbrev pub choose_alternate : Option ℕ → List (MatchAttempt F) → Handler (Store F) ℕ
  choose_alternate (some i) rows db =
      (do
        a ← or_raise (find_attempt i rows) (http_error 400 "alternate_not_found")
        pure a.candidate_facilitator_id)
        db
  choose_alternate none rows db =
      (do
        a ← or_raise (first_attempt rows) (http_error 409 "no_alternates")
        pure a.candidate_facilitator_id)
        db

  abbrev pub check_override : Match → ℕ → Handler (Store F) ℕ
  check_override m org_id db =
      (do
        raise_unless (has_any actor.roles staff_roles) (http_error 403 "role_required")
        o ← or_raise (find_org org_id db.tables.orgs) (http_error 400 "invalid_override_org")
        raise_unless (is_assignable m o) (http_error 400 "invalid_override_org")
        pure o.id)
        db

  -- The target of `route_elsewhere`: a staff member's override or a ranked alternate.
  unfoldable pub choose_target : Match → Option ℕ → Handler (Store F) ℕ
  choose_target m (some org_id) db = check_override m org_id db
  choose_target m none db =
      choose_alternate body.next_attempt_id (alternates m db.tables.attempts) db

  abbrev pub add_match : Match → Handler (Store F) (Unit {0})
  add_match m db =
      (done tt, record db { tables = record db.tables { matches = db.tables.matches ++ m ∷ [] } })

  abbrev pub override_attempt : Match → Contact → ℕ → MatchAttempt F
  override_attempt m contact target_org_id = record {
    id = fresh.attempt_id;
    contact_id = contact.id;
    adopter_interest_id = m.adopter_interest_id;
    run_id = fresh.run_id;
    candidate_facilitator_id = target_org_id;
    score = none;
    score_breakdown = none;
    filter_results = reason_only FilterReason.manual_override;
    rank = none;
  }

  abbrev pub add_attempt : MatchAttempt F → Handler (Store F) (Unit {0})
  add_attempt a db =
      (done tt, record db { tables = record db.tables { attempts = db.tables.attempts ++ a ∷ [] } })

  -- The insertion of the new row at the commit. It stands outside of the handler's `try`, so a
  -- conflict with `uq_match_open_per_interest` is not answered by 409.
  unfoldable pub insert_match : Match → Handler (Store F) (Unit {0})
  insert_match m db = elim (find_open m.adopter_interest_id db.tables.matches) [
    | none ↦ add_match m db
    | some _ ↦ raise internal_server_error db
  ]

  -- `decision == "route_elsewhere"`, with the commit's insertion last.
  unfoldable pub reroute_match : String → Match → Contact → Handler (Store F) (Option ℕ)
  unfolding choose_target release reserve when insert_match
  reroute_match role m contact db =
      (do
        target_org_id ← choose_target m body.facilitator_org_id
        stamp m MatchStatus.declined
        when (is_reserved m.status && not m.is_manual_override) (release m.facilitator_org_id)
        when (is_reserved m.status && not (is_some body.facilitator_org_id)) (reserve target_org_id)
        when (is_some body.facilitator_org_id)
            (add_attempt (override_attempt m contact target_org_id))
        emit event_routed (routed_payload actor fresh body role m contact target_org_id)
        insert_match (rerouted_match fresh body m target_org_id)
        pure (some fresh.match_id))
        db

  abbrev pub apply_verb : DecisionVerb → String → Match → Contact → Handler (Store F) (Option ℕ)
  apply_verb accept = accept_match
  apply_verb send_back = send_back_match
  apply_verb route_elsewhere = reroute_match

  -- The response, read after the commit.
  abbrev pub respond : Match → Contact → Option ℕ → Handler (Store F) Decided
  respond m contact new_match_id db = (
    done (record {
      match = or_else m (find_match m.id db.tables.matches);
      contact_adopter_status =
          (or_else contact (find_contact contact.id db.session.contacts)).adopter_status;
      new_match_id = new_match_id;
    }),
    db,
  )

  abbrev pub decide_open : Match → Contact → Handler (Store F) Decided
  decide_open m contact db =
      (do
        role ← or_raise (pick_actor_role actor.roles queue_roles) internal_server_error
        new_match_id ← apply_verb body.decision role m contact
        respond m contact new_match_id)
        db

  abbrev pub decide_closed : Match → Contact → Handler (Store F) Decided
  decide_closed m contact db =
      (do
        raise_unless (is_retry body.decision m.status) (http_error 409 "match_already_decided")
        respond m contact none)
        db

  -- The body of `decide_match`, for the row and the contact that it loaded.
  unfoldable pub decide_loaded : Match → Contact → Handler (Store F) Decided
  unfolding accept_match send_back_match reroute_match
  decide_loaded m contact db =
      if in_queue m.status then decide_open m contact db else decide_closed m contact db

  -- The request, inside its transaction.
  unfoldable pub decide_request : ℕ → Handler (Store F) Decided
  unfolding decide_loaded
  decide_request match_id db =
      (do
        raise_unless (validate_route_elsewhere_fields body) (http_error 422 "value_error")
        raise_unless (has_any actor.roles queue_roles) (http_error 403 "role_required")
        m ← or_raise (find_match match_id db.tables.matches) (http_error 404 "Match not found")
        check_decide_access actor m
        i ←
            or_raise (find_interest m.adopter_interest_id db.tables.interests)
              (http_error 404 "AdopterInterest not found")
        contact ←
            or_raise (find_contact i.contact_id db.session.contacts)
              (http_error 404 "Contact not found")
        decide_loaded m contact)
        db

  -- `decide_match`
  unfoldable pub decide_match : ℕ → Handler (Store F) Decided
  unfolding decide_request
  decide_match match_id = atomically (decide_request match_id)
