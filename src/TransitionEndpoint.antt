-- ===== src/TransitionEndpoint.antt =====
-- `post_transition` of routers/workflow.py: the organisation scope, the target's literal, the
-- transition and the answer.
pub mod Scope
use jp_adopt_core.Prelude.{
  ℕ, String, Bool, true, false, not, Option, none, some, List, [], ◌∷◌, if◌then◌else◌, ◌==◌, ◌&&◌,
  ◌||◌, in_ids, in_texts,
}
use jp_adopt_core.Models.{Contact}
use jp_adopt_core.Outbox.{Session}
use jp_adopt_core.Workflow.States.{ReasonCode, find_by_value}
use jp_adopt_core.Workflow.Lookup.{Side, adopter_side, facilitator_side}
use jp_adopt_core.Workflow.Transition.{
  ok, err, Action, Request, World, transition_adopter, transition_facilitator,
}
use jp_adopt_core.Matching.Rows.{AdopterInterest, Match, is_open}
use jp_adopt_core.Http.{
  done, fail, Handler, ◌>>=◌, ◌>>◌, pure, or_raise, raise_unless, http_error, internal_server_error,
  map_state_machine_exception, atomically,
}
use jp_adopt_core.Decide.Rows.{
  Store, Actor, Fresh, has_any, visible_org_ids, find_interest, find_contact,
}
use jp_adopt_core.Decide.Access.{staff_roles, first_in}

pub data Kind : Type 0 where
  adopter facilitator : Kind

pub record TransitionRequest : Type 0 where
  pub kind : Kind
  pub to_state : String
  pub reason_code : Option ReasonCode
  pub reason_text : Option String

pub record TransitionResponse : Type 0 where
  pub contact : Contact
  pub transitioned_to : String

-- `_WORKFLOW_ROLES`, in the order of `_pick_actor_role`.
abbrev pub workflow_roles : List String
workflow_roles = "staff_admin" ∷ "adoption_manager" ∷ "triage_facilitator" ∷ "facilitator" ∷ []

-- `_pick_actor_role`; its fallback stands behind `_workflow_dep`.
abbrev pub pick_workflow_role : List String → Option String
pick_workflow_role roles = first_in workflow_roles roles roles

-- The interest belongs to the contact.
abbrev pub is_interest_of : ℕ → Option AdopterInterest → Bool
is_interest_of contact_id none = false
is_interest_of contact_id (some i) = i.contact_id == contact_id

-- The organisations with an open match of the contact.
abbrev pub open_match_orgs : ℕ → List AdopterInterest → List Match → List ℕ
open_match_orgs contact_id interests [] = []
open_match_orgs contact_id interests (m ∷ ms) =
    if is_interest_of contact_id (find_interest m.adopter_interest_id interests) && is_open m.status
    then m.facilitator_org_id ∷ open_match_orgs contact_id interests ms
    else open_match_orgs contact_id interests ms

-- `org_ids & set(open_match_orgs)` is not empty.
abbrev pub overlaps : List ℕ → List ℕ → Bool
overlaps [] ids = false
overlaps (i ∷ is) ids = in_ids i ids || overlaps is ids

abbrev pub is_empty : List ℕ → Bool
is_empty [] = true
is_empty (i ∷ is) = false

-- `_assert_facilitator_org_scope`
unfoldable pub assert_facilitator_org_scope :
    {F : Type 0} → Actor → ℕ → Handler (Store F) (Unit {0})
assert_facilitator_org_scope actor contact_id db =
    let orgs = open_match_orgs contact_id db.tables.interests db.tables.matches in
    raise_unless (is_empty orgs || overlaps (visible_org_ids actor.sub db.memberships) orgs)
      (http_error 403 "org_not_member") db

-- `if not (roles & staff_roles)`
unfoldable pub check_scope : {F : Type 0} → Actor → ℕ → Handler (Store F) (Unit {0})
unfolding assert_facilitator_org_scope
check_scope actor contact_id db =
    if has_any actor.roles staff_roles
    then (done tt, db)
    else assert_facilitator_org_scope actor contact_id db

module _ {F : Type 0} (actor : Actor) (fresh : Fresh) (body : TransitionRequest) where
  -- The call of one of the two transitions, inside the `try`.
  unfoldable pub run_side :
      {S : Type 0}
      → (Request S → Action (Unit {0}))
      → S
      → String
      → Contact
      → Handler (Store F) (Unit {0})
  run_side transition target role contact db =
      let (r, w) =
        transition
          (record {
            to_state = target;
            actor_b2c_sub = actor.sub;
            actor_role = role;
            reason_code = body.reason_code;
            reason_text = body.reason_text;
            now = fresh.now;
            audit_id = fresh.audit_id;
            outbox_id = fresh.transition_event_id;
          })
          (record { session = db.session; contact = contact }) in
      elim r [
        | ok _ ↦ (done tt, record db { session = w.session })
        | err e ↦ (fail (map_state_machine_exception e), record db { session = w.session })
      ]

  -- The target's literal, the actor's role, and the transition.
  unfoldable pub move_side :
      {S : Type 0}
      → Side S
      → (Request S → Action (Unit {0}))
      → Contact
      → Handler (Store F) (Unit {0})
  unfolding run_side
  move_side side transition contact db =
      (do
        target ←
            or_raise (find_by_value side.value side.members body.to_state)
              (http_error 400 "invalid_state")
        role ← or_raise (pick_workflow_role actor.roles) internal_server_error
        run_side transition target role contact)
        db

  unfoldable pub move : Kind → Contact → Handler (Store F) (Unit {0})
  unfolding move_side
  move adopter contact = move_side adopter_side transition_adopter contact
  move facilitator contact = move_side facilitator_side transition_facilitator contact

  -- `db.refresh(contact)` and the answer.
  abbrev pub refreshed : ℕ → Handler (Store F) TransitionResponse
  refreshed contact_id db =
      (do
        contact ← or_raise (find_contact contact_id db.session.contacts) internal_server_error
        pure (record { contact = contact; transitioned_to = body.to_state }))
        db

  unfoldable pub transition_request : ℕ → Handler (Store F) TransitionResponse
  unfolding check_scope move
  transition_request contact_id db =
      (do
        raise_unless (has_any actor.roles workflow_roles) (http_error 403 "role_required")
        contact ←
            or_raise (find_contact contact_id db.session.contacts)
              (http_error 404 "Contact not found")
        check_scope actor contact_id
        move body.kind contact
        refreshed contact_id)
        db

  -- `post_transition`
  unfoldable pub post_transition : ℕ → Handler (Store F) TransitionResponse
  unfolding transition_request
  post_transition contact_id = atomically (transition_request contact_id)
