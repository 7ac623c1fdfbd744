-- ===== src/Drips/Drain.antt =====
-- `drain_drip_enrollments` of apps/worker/src/jp_adopt_worker/worker_settings.py: the events of the
-- outbox enroll contacts, or exit them.
use jp_adopt_core.Prelude.{
  ℕ, ◌-◌, String, Bool, true, false, not, none, some, List, [], ◌∷◌, ◌++◌, if◌then◌else◌, ◌=ₛ◌, ltb,
  ◌&&◌,
}
use jp_adopt_core.Models.{Contact}
use jp_adopt_core.Outbox.{
  OutboxRow, Payload, transition_payload, summary_payload, decision_payload, run_payload,
  submission_payload, submitted_payload, manual_payload, other_payload,
}
use jp_adopt_core.Decide.Rows.{find_contact}
use jp_adopt_core.Drips.Rows.{ExitReason, Tables}
use jp_adopt_core.Drips.Engine.{enroll_on_event, exit_enrollments_for_contact}

-- `payload.get("contact_id")`, as a UUID: missing, malformed, or a contact.
pub data ContactRef : Type 0 where
  absent invalid : ContactRef
  valid : ℕ → ContactRef

abbrev pub event_do_not_engage : String
event_do_not_engage = "jp.adopt.v1.contact.do_not_engage"

abbrev pub drip_drain_batch_size : ℕ
drip_drain_batch_size = 50

-- The field of each body; `other` reads a serialised text.
abbrev pub contact_ref : (String → ContactRef) → Payload → ContactRef
contact_ref other (transition_payload _ _ _ contact_id _ _ _ _ _ _) = valid contact_id
contact_ref other (summary_payload _ _ _ _ _ _) = absent
contact_ref other (decision_payload _ _ _ _ contact_id _ _ _ _ _ _) = valid contact_id
contact_ref other (run_payload _ _ contact_id _ _ _ _) = valid contact_id
contact_ref other (submission_payload _ _ _ _ contact_id _ _ _ _ _ _ _) = valid contact_id
contact_ref other (submitted_payload _ contact_id _ _) = valid contact_id
contact_ref other (manual_payload _ _ contact_id _ _ _ _ _ _ _) = valid contact_id
contact_ref other (other_payload text) = other text

abbrev pub is_undrained : OutboxRow → Bool
is_undrained r = elim r.drip_processed_at [ none ↦ true | some _ ↦ false ]

-- `exit_enrollments_for_contact` on the tables.
abbrev pub exit_contact : ℕ → ℕ → Tables → Tables
exit_contact contact_id now t =
    let (enrollments, events, n) =
      exit_enrollments_for_contact contact_id ExitReason.exit_do_not_engage now t.enrollments in
    record t { enrollments = enrollments; events = t.events ++ events }

-- `locked` are the rows that other transactions hold, `ids` the identifiers for new enrollments.
module _ (other : String → ContactRef) (locked : ℕ → Bool) (ids : ℕ → ℕ)
    (contacts : List Contact) where
  -- The reaction to a row with a contact.
  unfoldable pub react_to : OutboxRow → ℕ → ℕ → Tables → Tables
  unfolding enroll_on_event exit_enrollments_for_contact
  react_to r contact_id now t =
      if r.event_type =ₛ event_do_not_engage
      then exit_contact contact_id now t
      else (enroll_on_event r.event_type (find_contact contact_id contacts) (ids r.id) now t).1

  abbrev pub react : OutboxRow → ContactRef → ℕ → Tables → Tables
  react r absent now t = t
  react r invalid now t = t
  react r (valid contact_id) now t = react_to r contact_id now t

  abbrev pub is_chosen : ℕ → OutboxRow → Bool
  is_chosen limit r = ltb 0 limit && is_undrained r && not (locked r.id)

  -- The rows in the order of their creation, up to the limit.
  unfoldable pub drain_rows : ℕ → ℕ → List OutboxRow → Tables → Tables × List OutboxRow
  unfolding react_to
  drain_rows now limit [] t = (t, [])
  drain_rows now limit (r ∷ rows) t =
      let chosen = is_chosen limit r in
      let (t', rest) =
        drain_rows now (if chosen then limit - 1 else limit) rows
          (if chosen then react r (contact_ref other r.payload_json) now t else t) in
      (t', (if chosen then record r { drip_processed_at = some now } else r) ∷ rest)

  -- `drain_drip_enrollments`
  unfoldable pub drain_drip_enrollments : ℕ → List OutboxRow → Tables → Tables × List OutboxRow
  unfolding drain_rows
  drain_drip_enrollments now rows t = drain_rows now drip_drain_batch_size rows t
