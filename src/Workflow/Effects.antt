-- ===== src/Workflow/Effects.antt =====
-- What an accepted transition writes, and why a stale object is refused.
use jp_adopt_core.Prelude.{
  ℕ, suc, ◌+◌, String, ◌≡◌, ◌≢◌, refl, none, some, List, [], ◌∷◌, ◌++◌, arith, if◌then◌else◌, ◌==◌,
}
use jp_adopt_core.Models.{Contact, TransitionAudit}
use jp_adopt_core.Outbox.{
  Payload, transition_payload, OutboxRow, new_row, Session, emit_outbox, SuppressionContext,
  record_event, total,
}
use jp_adopt_core.Outbox.Scope.{total-increment}
use jp_adopt_core.Workflow.Tables.{TransitionSpec, event_value}
use jp_adopt_core.Workflow.Lookup.{Side, adopter_side, facilitator_side, lookup_spec}
use jp_adopt_core.Workflow.Transition.{
  ok, World, Request, select_version, update_row, moved, reason_text_of, build_payload, audit_row,
  write_transition, transition_generic,
}
use jp_adopt_core.Workflow.Acceptance.{accepted_run, accepted_has_parts, status_state}

pub emit_outbox-contacts :
    (t : String) (p : Payload) (i : ℕ) (s : Session) → (emit_outbox t p i s).1.contacts ≡ s.contacts
unfolding emit_outbox
emit_outbox-contacts t p i s = ground arith

select_version-update_row :
    (i j v : ℕ) (f : Contact → Contact) (cs : List Contact)
    → ((c : Contact) → (f c).id ≡ c.id)
    → ((c : Contact) → (f c).version ≡ v)
    → select_version j (update_row i f cs) ≡ (
        if i == j
        then elim (select_version j cs) [ none ↦ none | some _ ↦ some v ]
        else select_version j cs)
select_version-update_row i j v f [] p r = ground arith
select_version-update_row i j v f (c ∷ cs) p r =
    ground (arith, select_version-update_row i j v f cs p r, p c, r c)

-- A side writes its status column, which it reads back, and leaves the identifier alone.
pub record IsColumn {S : Type 0} (side : Side S) : Type 0 where
  pub keeps_id : (v : String) (c : Contact) → (side.set_status v c).id ≡ c.id
  pub reads_back :
      (v : String) (n t : ℕ) (c : Contact)
      → side.get_status (record (side.set_status v c) { version = n; updated_at = t }) ≡ some v

abbrev pub adopter_side-IsColumn : IsColumn adopter_side
adopter_side-IsColumn = record { keeps_id = λ v c. refl; reads_back = λ v n t c. refl }

abbrev pub facilitator_side-IsColumn : IsColumn facilitator_side
facilitator_side-IsColumn = record { keeps_id = λ v c. refl; reads_back = λ v n t c. refl }

module _ {S : Type 0} (side : Side S) (column : IsColumn side) where
  accepted_rows :
      (q : Request S) (w : World) (j : ℕ)
      → (transition_generic side q w).0 ≡ ok tt
      → select_version j (transition_generic side q w).1.session.contacts ≡ (
          if w.contact.id == j
          then some (w.contact.version + 1)
          else select_version j w.session.contacts)
  unfolding write_transition
  accepted_rows q w j h =
      let a = accepted_has_parts side q w h in
      rw
        (
          accepted_run side q w a,
          emit_outbox-contacts,
          select_version-update_row w.contact.id j (w.contact.version + 1)
              (moved side q w.contact.version) w.session.contacts
              (λ c. column.keeps_id (side.value q.to_state) c) (λ c. refl),
        )
        (ground (arith, a.6))

  -- After an accepted transition the object has the target's status and a version one above its
  -- old one, its row carries that version, and the versions of all other rows are unchanged.
  pub accepted_bumps_version :
      (q : Request S) (w : World) (j : ℕ)
      → (transition_generic side q w).0 ≡ ok tt
      → let w' = (transition_generic side q w).1 in
        (w'.contact.version ≡ w.contact.version + 1)
        × (w'.contact.id ≡ w.contact.id)
        × (side.get_status w'.contact ≡ some (side.value q.to_state))
        × (select_version j w'.session.contacts ≡ (
            if w.contact.id == j
            then some w'.contact.version
            else select_version j w.session.contacts))
  unfolding write_transition
  accepted_bumps_version q w j h =
      let a = accepted_has_parts side q w h in
      let rows = accepted_rows q w j h in
      rw (accepted_run side q w a) (
        refl,
        column.keeps_id (side.value q.to_state) w.contact,
        column.reads_back (side.value q.to_state) (w.contact.version + 1) q.now w.contact,
        (rw (accepted_run side q w a) at rows),
      )

  -- Once a transition of one side is accepted, a transition of either side from another object of
  -- the same contact that still has the old version is never accepted, whoever asks.
  pub stale_object_refused :
      {T : Type 0} (other : Side T) (q : Request S) (r : Request T) (w : World) (stale : Contact)
      → (transition_generic side q w).0 ≡ ok tt
      → stale.id ≡ w.contact.id
      → stale.version ≡ w.contact.version
      → let s' = (transition_generic side q w).1.session in
        (transition_generic other r (record { session = s'; contact = stale })).0 ≢ ok tt
  stale_object_refused other q r w stale h i v accepted =
      let s' = (transition_generic side q w).1.session in
      let b = accepted_has_parts other r (record { session = s'; contact = stale }) accepted in
      ground (arith, accepted_rows q w stale.id h, b.6)

module _ {S : Type 0} (side : Side S) where
  -- Outside a suppression scope an accepted transition adds one outbox row and one audit row. The
  -- outbox row has the event type of the spec that the lookup finds from the contact's status, and a
  -- body with the contact, the status it left, the one it entered, the actor and the reason; the audit
  -- row names that outbox row alone, and has the status it left and the one it entered.
  pub accepted_emits :
      (q : Request S) (w : World)
      → w.session.active ≡ none
      → (transition_generic side q w).0 ≡ ok tt
      → let s' = (transition_generic side q w).1.session in
        (frm : S) × (spec : TransitionSpec) × (row : OutboxRow) × (audit : TransitionAudit)
        × (status_state side (side.get_status w.contact) ≡ some frm)
        × (lookup_spec side frm q.to_state ≡ some spec)
        × (s'.outbox ≡ w.session.outbox ++ row ∷ [])
        × (s'.audits ≡ w.session.audits ++ audit ∷ [])
        × (row.event_type ≡ event_value spec.event_type)
        × (row.payload_json
            ≡ transition_payload
                (event_value spec.event_type)
                "1"
                q.now
                w.contact.id
                (side.value frm)
                (side.value q.to_state)
                q.actor_b2c_sub
                q.actor_role
                (reason_text_of q.reason_code)
                q.reason_text)
        × (audit.outbox_event_ids ≡ some (row.id ∷ []))
        × (audit.contact_id ≡ w.contact.id)
        × (audit.from_state ≡ side.value frm)
        × (audit.to_state ≡ side.value q.to_state)
  unfolding write_transition emit_outbox
  accepted_emits q w n h =
      let a = accepted_has_parts side q w h in
      rw (accepted_run side q w a) (
        a.0,
        a.1,
        new_row q.outbox_id (event_value a.1.event_type)
            (build_payload side a.1.event_type w.contact.id a.0 q),
        audit_row side w.contact.id a.0 q (some q.outbox_id),
        a.2,
        a.3,
        ground arith,
        ground arith,
        refl,
        refl,
        refl,
        refl,
        refl,
        refl,
      )

  -- Inside a suppression scope an accepted transition adds no outbox row and one audit row, which
  -- names no outbox row, and the scope's count of suppressed events grows by one.
  accepted_suppressed :
      (q : Request S) (w : World) {ctx : SuppressionContext}
      → w.session.active ≡ some ctx
      → (transition_generic side q w).0 ≡ ok tt
      → let s' = (transition_generic side q w).1.session in
        (ctx' : SuppressionContext) × (audit : TransitionAudit) × (s'.outbox ≡ w.session.outbox)
        × (s'.audits ≡ w.session.audits ++ audit ∷ [])
        × (audit.outbox_event_ids ≡ none)
        × (s'.active ≡ some ctx')
        × (total ctx'.event_counts ≡ suc (total ctx.event_counts))
  unfolding write_transition emit_outbox
  accepted_suppressed q w {ctx = ctx} n h =
      let a = accepted_has_parts side q w h in
      rw (accepted_run side q w a) (
        record_event ctx (event_value a.1.event_type),
        audit_row side w.contact.id a.0 q none,
        ground arith,
        ground arith,
        refl,
        ground arith,
        total-increment (event_value a.1.event_type) ctx.event_counts,
      )
