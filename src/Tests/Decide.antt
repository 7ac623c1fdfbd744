-- ===== src/Tests/Decide.antt =====
-- Decisions on concrete matches, and a transition through its endpoint.
use jp_adopt_core.Prelude.{
  ◌==◌, ◌+◌, ℕ, ◌≡◌, refl, inl, inr, true, false, none, some, [], ◌∷◌, arith, All, ap, sym, filter,
  ◌&&◌, ◌==◌, ◌∙◌, Bool-cases,
}
use mathlib.Core.Path.{subst}
use jp_adopt_core.Text.{Unicode, codes}
use jp_adopt_core.Models.{Contact}
use jp_adopt_core.Outbox.{emit_outbox}
use jp_adopt_core.Workflow.States.{AdopterState}
use jp_adopt_core.Workflow.Lookup.{lookup_spec}
use jp_adopt_core.Workflow.Transition.{
  transition_adopter, transition_generic, validate_reason, lock_and_check_version, write_transition,
}
use jp_adopt_core.Matching.Rows.{FacilitatingOrg, AdopterInterest, Match, MatchStatus, undecided}
use jp_adopt_core.Matching.OpenMatches.{IsOneOpen}
use jp_adopt_core.Http.{done, succeeds}
use jp_adopt_core.Decide.Rows.{
  Store, Actor, accept, DecideRequest, Fresh, in_queue, has_any, is_reserved, find_match,
  find_contact, validate_route_elsewhere_fields,
}
use jp_adopt_core.Decide.Access.{check_decide_access, check_view_access, pick_actor_role, get_queue}
use jp_adopt_core.Decide.Capacity.{try_increment_capacity}
use jp_adopt_core.Decide.Parts.{Decided, current_state, is_matched, or_else}
use jp_adopt_core.Decide.Handler.{
  run_transition, reserve, when, accept_match, decide_loaded, decide_request, decide_match,
}
use jp_adopt_core.TransitionEndpoint.{
  adopter, TransitionRequest, TransitionResponse, workflow_roles, assert_facilitator_org_scope,
  check_scope, run_side, move_side, move, transition_request, post_transition,
}
use jp_adopt_core.TransitionEndpoint.Scope.{IsInScope, post_transition-IsInScope}
use jp_adopt_core.Decide.Admission.{Admitted}
use jp_adopt_core.Decide.Invariants.{IsWithin, decide_match-IsWithin, decide_match-IsOneOpen}
use jp_adopt_core.Decide.Ledger.{IsLedger, IsRegular, decide_match-IsLedger}
use jp_adopt_core.Decide.Scope.{
  HasStanding, decide_match-HasStanding, view_and_decide_agree, get_queue_shows,
}
use jp_adopt_core.Decide.Answers.{Answer, decide_match_answers}
use jp_adopt_core.ManualContacts
use jp_adopt_core.ManualContacts.{ManualContactCreate}
use jp_adopt_core.Http.After.{After}

abbrev manager : Actor
manager = record { sub = "sub-1"; roles = "adoption_manager" ∷ [] }

abbrev ada : Contact
ada = record {
  id = 7;
  party_kind = "adopter";
  display_name = "Ada";
  adopter_status = some "engaged";
  facilitator_status = none;
  version = 3;
  b2c_subject_id = none;
  email_normalized = some (codes "ada@example.org");
  source_system = none;
  source_id = none;
  origin = none;
  newsletter_opt_in = false;
  country_code = some "NL";
  language_codes = "nl" ∷ [];
  created_at = 100;
  updated_at = 100;
}

abbrev helpers : FacilitatingOrg
helpers = record {
  id = 5;
  name = "Helpers";
  country_code = some "NL";
  language_codes = "nl" ∷ [];
  capacity_total = 1;
  capacity_committed = 0;
  is_triage_org = false;
  last_assigned_at = none;
  active = true;
}

abbrev interest : AdopterInterest
interest = record {
  id = 1;
  contact_id = 7;
  people_id3 = some "AAA";
  commitment_level = none;
  notes = none;
  commitment_types = none;
  engagement_status = none;
  facilitation_services = none;
  network_services = none;
}

abbrev proposal : Match
proposal = undecided 9 1 5 MatchStatus.recommended

abbrev store : Store ℕ
store = record {
  session = record { contacts = ada ∷ []; outbox = []; audits = []; active = none };
  tables = record {
    orgs = helpers ∷ [];
    coverage = (5, "AAA") ∷ [];
    interests = interest ∷ [];
    matches = proposal ∷ [];
    attempts = [];
    next_id = 50;
  };
  memberships = ("sub-2", 5) ∷ [];
}

abbrev fresh : Fresh
fresh = record {
  now = 200;
  audit_id = 31;
  transition_event_id = 41;
  event_id = 42;
  match_id = 43;
  attempt_id = 44;
  run_id = 45;
}

abbrev acceptance : DecideRequest
acceptance = record {
  decision = accept;
  reason_code = none;
  reason_text = none;
  next_attempt_id = none;
  facilitator_org_id = none;
}

abbrev decided : Decided
decided = record {
  match = record proposal {
    status = MatchStatus.accepted;
    decided_at = some 200;
    decided_by = some "sub-1";
  };
  contact_adopter_status = some "matched";
  new_match_id = none;
}

accepted_ok : (decide_match manager fresh acceptance 9 store).0 ≡ done decided
unfolding decide_match decide_request decide_loaded accept_match run_transition reserve when
    transition_adopter transition_generic validate_reason lock_and_check_version write_transition
    lookup_spec emit_outbox try_increment_capacity check_decide_access pick_actor_role
    validate_route_elsewhere_fields
accepted_ok = refl

slot_taken :
    (decide_match manager fresh acceptance 9 store).1.tables.orgs
    ≡ record helpers { capacity_committed = 1; last_assigned_at = some 200 } ∷ []
unfolding decide_match decide_request decide_loaded accept_match run_transition reserve when
    transition_adopter transition_generic validate_reason lock_and_check_version write_transition
    lookup_spec emit_outbox try_increment_capacity check_decide_access pick_actor_role
    validate_route_elsewhere_fields
slot_taken = refl

decide_match-IsWithin_example :
    All IsWithin (decide_match manager fresh acceptance 9 store).1.tables.orgs
decide_match-IsWithin_example = decide_match-IsWithin manager fresh acceptance 9 store (omega arith)

decide_match-IsOneOpen_example :
    IsOneOpen (decide_match manager fresh acceptance 9 store).1.tables.matches
decide_match-IsOneOpen_example =
    decide_match-IsOneOpen manager fresh acceptance 9 store (inr refl, tt)

unmatched :
    (c : Contact) (current : AdopterState)
    → ada ≡ c
    → current_state c.adopter_status ≡ some current
    → is_matched current ≡ false
unmatched c current e h =
    let h' = subst (λ (x : Contact). current_state x.adopter_status ≡ some current) (sym e) h in
    sym (ap (λ o. is_matched (or_else AdopterState.draft o)) h')

only_contact : (i : ℕ) (c : Contact) → find_contact i (ada ∷ []) ≡ some c → ada ≡ c
only_contact i c h = elim (Bool-cases (7 == i)) [
  | inl e ↦ ap (or_else ada) (rw e at h)
  | inr e ↦ absurd (ground (arith, (rw e at h)))
]

store-IsRegular : IsRegular manager fresh acceptance 9 store
store-IsRegular m contact a =
    let unreserved : is_reserved m.status ≡ false =
      subst (λ (x : Match). is_reserved x.status ≡ false) (ap (or_else proposal) a.found) refl in
    (
      λ current h.
          unmatched contact current (only_contact a.interest.contact_id contact a.contact_found) h
          ∙ sym unreserved,
      λ r. absurd (ground (arith, r, unreserved)),
    )

store-IsLedger : IsLedger store.tables.orgs store.tables.matches
store-IsLedger i o f = ground arith

decide_match-IsLedger_example :
    let t = (decide_match manager fresh acceptance 9 store).1.tables in IsLedger t.orgs t.matches
decide_match-IsLedger_example =
    decide_match-IsLedger manager fresh acceptance 9 store store-IsRegular store-IsLedger

decide_match-HasStanding_example :
    (m : Match) × (find_match 9 store.tables.matches ≡ some m)
    × HasStanding manager m store.memberships
decide_match-HasStanding_example =
    decide_match-HasStanding manager fresh acceptance 9 store decided accepted_ok

view_and_decide_agree_example :
    check_view_access manager proposal store ≡ check_decide_access manager proposal store
view_and_decide_agree_example = view_and_decide_agree manager proposal store refl

get_queue_shows_example :
    (get_queue manager store).0
    ≡ done (
        filter
          (λ m. in_queue m.status && succeeds (check_view_access manager m store))
          store.tables.matches)
get_queue_shows_example = get_queue_shows manager store refl (inl refl)

decide_match_answers_example :
    let db' = (decide_match manager fresh acceptance 9 store).1 in
    (c : Contact) × Admitted manager fresh acceptance 9 proposal c store
    × (find_match 9 db'.tables.matches ≡ some decided.match)
    × Answer manager fresh acceptance accept proposal c decided db'
decide_match_answers_example =
    decide_match_answers manager fresh acceptance 9 store decided proposal refl refl accepted_ok

-- The same contact, moved through the other endpoint.
abbrev to_matched : TransitionRequest
to_matched = record { kind = adopter; to_state = "matched"; reason_code = none; reason_text = none }

abbrev moved_answer : TransitionResponse
moved_answer = record {
  contact = record ada { adopter_status = some "matched"; version = 4; updated_at = 200 };
  transitioned_to = "matched";
}

moved_ok : (post_transition manager fresh to_matched 7 store).0 ≡ done moved_answer
unfolding post_transition transition_request check_scope assert_facilitator_org_scope move move_side
    run_side transition_adopter transition_generic validate_reason lock_and_check_version
    write_transition lookup_spec emit_outbox
moved_ok = refl

post_transition-IsInScope_example :
    (has_any manager.roles workflow_roles ≡ true) × IsInScope manager 7 store
post_transition-IsInScope_example =
    post_transition-IsInScope manager fresh to_matched 7 store moved_answer moved_ok

-- Staff add Ada again, by her address, for the organisation that she has a match with.
abbrev by_hand : ManualContactCreate
by_hand = record {
  display_name = "Ada";
  email = codes "ada@example.org";
  is_adopter = true;
  origin = none;
  country_code = none;
  language_codes = [];
  newsletter_opt_in = true;
  fpg_people_id3s = "AAA" ∷ [];
  facilitator_org_id = some 5;
  notes = none;
}

abbrev manual_fresh : ManualContacts.Fresh
manual_fresh = record {
  now = 300;
  contact_id = 70;
  interest_id = λ k. 71 + k;
  match_id = 80;
  event_id = 81;
}

abbrev letters : Unicode
letters = record { is_space = λ c. c == 32; lower = λ t. t; casefold = λ t. t }
