-- ===== src/Workflow/Transition.antt =====
-- `_transition_generic` and its two entry points: validation, the optimistic lock, and the writes.
use jp_adopt_core.Prelude.{
  ℕ, ◌+◌, String, Bool, true, false, not, Option, none, some, List, [], ◌∷◌, ◌++◌, if◌then◌else◌,
  ◌==◌, in_texts,
}
use jp_adopt_core.Models.{Contact, TransitionAudit}
use jp_adopt_core.Outbox.{Payload, transition_payload, Session, emit_outbox}
use jp_adopt_core.Workflow.States.{
  AdopterState, FacilitatorState, ReasonCode, reason_value, in_reasons, find_by_value,
}
use jp_adopt_core.Workflow.Tables.{TransitionSpec, EventType, event_value}
use jp_adopt_core.Workflow.Lookup.{Side, adopter_side, facilitator_side, lookup_spec}

-- The exceptions that a transition raises. `no_result_found` is that of `scalar_one`, when the
-- contact's row is gone.
pub data TransitionError : Type 0 where
  illegal_transition : (from_state to_state : String) → TransitionError
  role_not_permitted : (actor_role : String) (required_roles : List String) → TransitionError
  reason_required : TransitionError
  invalid_reason_code : (reason_code : ReasonCode) (allowed : List ReasonCode) → TransitionError
  concurrent_modification : (contact_id expected_version actual_version : ℕ) → TransitionError
  no_result_found : TransitionError

pub data Result (A : Type 0) : Type 0 where
  ok : A → Result A
  err : TransitionError → Result A

-- The session, and the caller's in-memory contact object.
pub record World : Type 0 where
  pub session : Session
  pub contact : Contact

abbrev pub Action : Type 0 → Type 0
Action A = World → Result A × World

infixl 5 ◌>>=◌ ◌>>◌
abbrev pub ◌>>=◌ : {A B : Type 0} → Action A → (A → Action B) → Action B
◌>>=◌ m f w = let (r, w') = m w in elim r [ ok a ↦ f a w' | err e ↦ (err e, w') ]

abbrev pub ◌>>◌ : {A B : Type 0} → Action A → Action B → Action B
m >> k = m >>= λ _. k

abbrev pub raise : {A : Type 0} → TransitionError → Action A
raise e w = (err e, w)

abbrev pub pure : {A : Type 0} → A → Action A
pure a w = (ok a, w)

abbrev pub or_raise : {A : Type 0} → Option A → TransitionError → Action A
or_raise none e = raise e
or_raise (some a) e = pure a

abbrev pub raise_unless : Bool → TransitionError → Action (Unit {0})
raise_unless true e = pure tt
raise_unless false e = raise e

-- The arguments of a transition, and what the clock and `uuid4` return during it.
pub record Request (S : Type 0) : Type 0 where
  pub to_state : S
  pub actor_b2c_sub : String
  pub actor_role : String
  pub reason_code : Option ReasonCode
  pub reason_text : Option String
  pub now : ℕ
  pub audit_id : ℕ
  pub outbox_id : ℕ

-- `_validate_reason`
unfoldable pub validate_reason : TransitionSpec → Option ReasonCode → Action (Unit {0})
validate_reason spec none = raise_unless (not spec.requires_reason) reason_required
validate_reason spec (some code) = elim spec.reason_codes [
  | none ↦ pure tt
  | some codes ↦ raise_unless (in_reasons code codes) (invalid_reason_code code codes)
]

-- `SELECT version FROM contacts WHERE id = …`
abbrev pub select_version : ℕ → List Contact → Option ℕ
select_version i [] = none
select_version i (c ∷ cs) = if c.id == i then some c.version else select_version i cs

-- `_lock_and_check_version`
unfoldable pub lock_and_check_version : Action (Unit {0})
lock_and_check_version w = elim (select_version w.contact.id w.session.contacts) [
  | none ↦ raise no_result_found w
  | some db_version ↦
      raise_unless (db_version == w.contact.version)
        (concurrent_modification w.contact.id w.contact.version db_version) w
]

abbrev pub reason_text_of : Option ReasonCode → Option String
reason_text_of none = none
reason_text_of (some c) = some (reason_value c)

-- `UPDATE contacts SET … WHERE id = …`, at the flush.
abbrev pub update_row : ℕ → (Contact → Contact) → List Contact → List Contact
update_row i f [] = []
update_row i f (c ∷ cs) = if c.id == i then f c ∷ update_row i f cs else c ∷ update_row i f cs

abbrev pub event_ids : Option ℕ → Option (List ℕ)
event_ids none = none
event_ids (some i) = some (i ∷ [])

module _ {S : Type 0} (side : Side S) where
  -- `from_state`: a missing status is the draft state.
  abbrev pub parse_status : S → Option String → Action S
  parse_status to none = pure side.draft_state
  parse_status to (some current) =
      or_raise (find_by_value side.value side.members current)
        (illegal_transition (side.value side.draft_state) (side.value to))

  -- `_build_payload`
  abbrev pub build_payload : EventType → ℕ → S → Request S → Payload
  build_payload event contact_id frm q =
      transition_payload (event_value event) "1" q.now contact_id (side.value frm)
        (side.value q.to_state) q.actor_b2c_sub q.actor_role (reason_text_of q.reason_code)
        q.reason_text

  abbrev pub audit_row : ℕ → S → Request S → Option ℕ → TransitionAudit
  audit_row contact_id frm q outbox_event_id = record {
    id = q.audit_id;
    contact_id = contact_id;
    from_state = side.value frm;
    to_state = side.value q.to_state;
    actor_id = q.actor_b2c_sub;
    actor_role = q.actor_role;
    reason_code = reason_text_of q.reason_code;
    reason_text = q.reason_text;
    outbox_event_ids = event_ids outbox_event_id;
  }

  -- `contact.status = …; contact.version = version + 1; contact.updated_at = now`, which the flush
  -- writes to the row, and to no other column.
  abbrev pub moved : Request S → ℕ → Contact → Contact
  moved q version c = record (side.set_status (side.value q.to_state) c) {
    version = version + 1;
    updated_at = q.now;
  }

  -- The writes behind the checks: outbox, audit row, contact, flush.
  unfoldable pub write_transition : TransitionSpec → S → Request S → Action (Unit {0})
  write_transition spec frm q w =
      let (outbox_event_id, s) =
        emit_outbox (event_value spec.event_type) (build_payload spec.event_type w.contact.id frm q)
          q.outbox_id w.session in
      (
        ok tt,
        record {
          session = record s {
            audits = s.audits ++ audit_row w.contact.id frm q outbox_event_id ∷ [];
            contacts = update_row w.contact.id (moved q w.contact.version) s.contacts;
          };
          contact = moved q w.contact.version w.contact;
        },
      )

  -- `_transition_generic`
  unfoldable pub transition_generic : Request S → Action (Unit {0})
  unfolding validate_reason lock_and_check_version write_transition
  transition_generic q w =
      (do
        frm ← parse_status q.to_state (side.get_status w.contact)
        spec ←
            or_raise (lookup_spec side frm q.to_state)
              (illegal_transition (side.value frm) (side.value q.to_state))
        raise_unless (in_texts q.actor_role spec.allowed_roles)
            (role_not_permitted q.actor_role spec.allowed_roles)
        validate_reason spec q.reason_code
        lock_and_check_version
        write_transition spec frm q)
        w

-- `transition_adopter`
unfoldable pub transition_adopter : Request AdopterState → Action (Unit {0})
transition_adopter = transition_generic adopter_side

-- `transition_facilitator`
unfoldable pub transition_facilitator : Request FacilitatorState → Action (Unit {0})
transition_facilitator = transition_generic facilitator_side
