-- ===== src/Outbox.antt =====
-- The transactional outbox: `emit_outbox` and the suppression scope of
-- apps/api/src/jp_adopt_api/outbox_suppression.py, over the session that they write to.
pub mod Scope
use jp_adopt_core.Prelude.{
  ℕ, suc, ◌+◌, String, Bool, Option, none, some, List, [], ◌∷◌, ◌++◌, if◌then◌else◌, ◌=ₛ◌,
}
use jp_adopt_core.Models.{Contact, TransitionAudit, FpgInterest}

-- `Counter[str]`.
abbrev pub Counter : Type 0
Counter = List (String × ℕ)

-- `counter[key] += 1`
abbrev pub increment : String → Counter → Counter
increment key [] = (key, 1) ∷ []
increment key ((k, n) ∷ rest) = if key =ₛ k then (k, suc n) ∷ rest else (k, n) ∷ increment key rest

-- `sum(counter.values())`
abbrev pub total : Counter → ℕ
total [] = 0
total ((k, n) ∷ rest) = n + total rest

-- `SuppressionContext`.
pub record SuppressionContext : Type 0 where
  pub label : String
  pub started_at : ℕ
  pub event_counts : Counter
  pub metadata : List (String × String)

-- `SuppressionContext.record`.
abbrev pub record_event : SuppressionContext → String → SuppressionContext
record_event ctx event_type = record ctx { event_counts = increment event_type ctx.event_counts }

-- The JSON bodies that are written: a workflow transition, the summary of a bulk import, a decision
-- on a match (accept, or a change of organisation), a matching run, a form's submission, the sign-up of
-- a new contact, a contact added by hand, or that of another caller, as its serialised text.
pub data Payload : Type 0 where
  transition_payload :
      (event schema_version : String)
      → (timestamp contact_id : ℕ) → (from_state to_state actor_sub actor_role : String)
      → (reason_code reason_text : Option String) → Payload
  summary_payload :
      (label : String)
      → (started_at finished_at total_suppressed_events : ℕ) → (event_counts : Counter)
      → (metadata : List (String × String)) → Payload
  decision_payload :
      (event schema_version : String)
      → (match_id : ℕ) → (new_match_id : Option ℕ) → (contact_id from_org_id : ℕ)
      → (to_org_id : Option ℕ) → (manual_override : Option Bool) → (actor_sub actor_role : String)
      → (timestamp : ℕ) → Payload
  run_payload :
      (event schema_version : String)
      → (contact_id run_id total_recommended total_triage timestamp : ℕ) → Payload
  submission_payload :
      (event schema_version : String)
      → (submission_id : ℕ) → (request_id : Option ℕ) → (contact_id : ℕ) → (contact_created : Bool)
      → (party_kind : String) → (organization_name : Option String) → (interest_ids : List ℕ)
      → (fpg_selections : List FpgInterest) → (origin : Option String) → (newsletter_opt_in : Bool)
      → Payload
  submitted_payload :
      (event : String)
      → (contact_id : ℕ) → (party_kind : String) → (adopter_status : Option String) → Payload
  manual_payload :
      (event schema_version : String)
      → (contact_id : ℕ) → (interest_ids : List ℕ) → (match_id : Option ℕ) → (party_kind : String)
      → (origin : Option String) → (newsletter_opt_in : Bool) → (actor_sub : String)
      → (timestamp : ℕ) → Payload
  other_payload : String → Payload

-- A row of `Outbox`. Rows stand in the order of `created_at`.
pub record OutboxRow : Type 0 where
  pub id : ℕ
  pub event_type : String
  pub payload_json : Payload
  pub claimed_at : Option ℕ
  pub processed_at : Option ℕ
  pub drip_processed_at : Option ℕ

-- A new row; the three times are NULL.
abbrev pub new_row : ℕ → String → Payload → OutboxRow
new_row row_id event_type payload = record {
  id = row_id;
  event_type = event_type;
  payload_json = payload;
  claimed_at = none;
  processed_at = none;
  drip_processed_at = none;
}

-- The transaction's view of the tables, and the task's context variable `_active`.
pub record Session : Type 0 where
  pub contacts : List Contact
  pub outbox : List OutboxRow
  pub audits : List TransitionAudit
  pub active : Option SuppressionContext

abbrev pub event_bulk_imported : String
event_bulk_imported = "jp.adopt.v1.bulk_imported"

-- `emit_outbox`; `row_id` is `event_id or uuid4()`.
unfoldable pub emit_outbox : String → Payload → ℕ → Session → Option ℕ × Session
emit_outbox event_type payload row_id s = elim s.active [
  | some ctx ↦ (none, record s { active = some (record_event ctx event_type) })
  | none ↦ (some row_id, record s { outbox = s.outbox ++ new_row row_id event_type payload ∷ [] })
]

-- How the block of a scope ends.
pub data BlockEnd : Type 0 where
  completed raised : BlockEnd

-- How a scope ends: it writes its summary, its block raises, or it is refused as nested.
pub data ScopeEnd : Type 0 where
  clean block_raised nested : ScopeEnd

-- The arguments of one scope: label and metadata, the two readings of the clock and the new row's
-- identifier.
pub record ScopeArgs : Type 0 where
  pub label : String
  pub metadata : List (String × String)
  pub started_at : ℕ
  pub finished_at : ℕ
  pub row_id : ℕ

abbrev pub new_context : ScopeArgs → SuppressionContext
new_context a = record {
  label = a.label;
  started_at = a.started_at;
  event_counts = [];
  metadata = a.metadata;
}

-- `ctx.total_suppressed` and the rest of the summary that `__aexit__` writes.
abbrev pub summary_row : ScopeArgs → SuppressionContext → OutboxRow
summary_row a ctx = new_row a.row_id event_bulk_imported (
    summary_payload ctx.label ctx.started_at a.finished_at (total ctx.event_counts) ctx.event_counts
      ctx.metadata)

-- The scope's context object when its block has ended.
abbrev pub context_or : SuppressionContext → Option SuppressionContext → SuppressionContext
context_or ctx none = ctx
context_or _ (some ctx) = ctx

-- `finally: _active.reset(token)`, and the summary if the block did not raise.
close_scope : ScopeArgs → BlockEnd × Session → ScopeEnd × Session
close_scope a (raised, s) = (block_raised, record s { active = none })
close_scope a (completed, s) = (
  clean,
  record s {
    active = none;
    outbox = s.outbox ++ summary_row a (context_or (new_context a) s.active) ∷ [];
  },
)

-- `outbox_suppressed`, around a block.
unfoldable pub outbox_suppressed :
    ScopeArgs → (Session → BlockEnd × Session) → Session → ScopeEnd × Session
unfolding close_scope
outbox_suppressed a block s = elim s.active [
  | some _ ↦ (nested, s)
  | none ↦ close_scope a (block (record s { active = some (new_context a) }))
]
