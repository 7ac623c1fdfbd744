-- ===== src/Drips/OptOut.antt =====
-- An opted-out contact has no open enrollment after its event was drained.
use jp_adopt_core.Prelude.{
  ℕ, ◌+◌, ◌-◌, ◌≡◌, refl, ◌<◌, String, Bool, true, false, Option, none, some, List, [], ◌∷◌, ◌++◌,
  if◌then◌else◌, ◌=ₛ◌, ◌==◌, ==_iff, ◌&&◌, arith, Bool-cases, inl, inr, length,
}
use mathlib.Core.Path.{subst}
use jp_adopt_core.Models.{Contact}
use jp_adopt_core.Decide.Lookups.{find_contact-own}
use jp_adopt_core.Outbox.{OutboxRow}
use jp_adopt_core.Decide.Rows.{find_contact}
use jp_adopt_core.Drips.Rows.{ExitReason, Tables, Campaign, Enrollment, is_open}
use jp_adopt_core.Drips.Engine.{
  enroll_on_event, exit_enrollments_for_contact, exit_enrollment, opted_out, enroll_all,
  enroll_contact_in_campaign, enroll_matching, active_campaigns_for, new_enrollment,
}
use jp_adopt_core.Drips.Exits.{open_count, exit_enrollments_lem}
use jp_adopt_core.Drips.Drain.{
  ContactRef, absent, invalid, valid, event_do_not_engage, drip_drain_batch_size, contact_ref,
  is_undrained, exit_contact, react_to, react, is_chosen, drain_rows, drain_drip_enrollments,
}

exit_keeps_none :
    (k i : ℕ) (r : ExitReason) (now : ℕ) (es : List Enrollment)
    → open_count k es ≡ 0
    → open_count k (exit_enrollments_for_contact i r now es).0 ≡ 0
unfolding exit_enrollments_for_contact exit_enrollment
exit_keeps_none k i r now [] h = refl
exit_keeps_none k i r now (e ∷ es) h = ground (arith, exit_keeps_none k i r now es)

open_count-append :
    (k : ℕ) (es : List Enrollment) (e : Enrollment)
    → open_count k (es ++ e ∷ [])
      ≡ open_count k es + (if e.contact_id == k && is_open e.state then 1 else 0)
open_count-append k [] e = omega arith
open_count-append k (x ∷ es) e = omega (arith, open_count-append k es e)

module _ (k : ℕ) (c : Contact) where
  -- The contact is another one, or has opted out.
  abbrev IsOut : Type 0
  IsOut = c.id == k ≡ true → opted_out c ≡ true

  enroll_keeps_none :
      (campaign : Campaign) (i now : ℕ) (t : Tables)
      → IsOut
      → open_count k t.enrollments ≡ 0
      → open_count k (enroll_contact_in_campaign campaign c i now t).1.enrollments ≡ 0
  unfolding enroll_contact_in_campaign
  enroll_keeps_none campaign i now t out h =
      ground (arith, out, open_count-append k t.enrollments (new_enrollment t campaign c i now))

  enroll_all_keeps_none :
      (cs : List Campaign) (i now : ℕ) (t : Tables)
      → IsOut
      → open_count k t.enrollments ≡ 0
      → open_count k (enroll_all cs c i now t).1.enrollments ≡ 0
  unfolding enroll_all
  enroll_all_keeps_none [] i now t out h = h
  enroll_all_keeps_none (x ∷ cs) i now t out h =
      enroll_all_keeps_none cs (i + 1) now (enroll_contact_in_campaign x c i now t).1 out
        (enroll_keeps_none x i now t out h)

  matching_keeps_none :
      (cs : List Campaign) (i now : ℕ) (t : Tables)
      → IsOut
      → open_count k t.enrollments ≡ 0
      → open_count k (enroll_matching cs c i now t).1.enrollments ≡ 0
  matching_keeps_none [] i now t out h = h
  matching_keeps_none (x ∷ cs) i now t out h = enroll_all_keeps_none (x ∷ cs) i now t out h

module _ (other : String → ContactRef) (locked : ℕ → Bool) (ids : ℕ → ℕ)
    (contacts : List Contact) where
  -- The contact's row says that it has opted out.
  abbrev pub HasOptedOut : ℕ → Type 0
  HasOptedOut k = (x : Contact) → find_contact k contacts ≡ some x → opted_out x ≡ true

  enroll_on_event_keeps_none :
      (k i j now : ℕ) (event_type : String) (o : Option Contact) (t : Tables)
      → HasOptedOut k
      → find_contact i contacts ≡ o
      → open_count k t.enrollments ≡ 0
      → open_count k (enroll_on_event event_type o j now t).1.enrollments ≡ 0
  unfolding enroll_on_event
  enroll_on_event_keeps_none k i j now event_type none t out f h = h
  enroll_on_event_keeps_none k i j now event_type (some c) t out f h =
      matching_keeps_none k c (active_campaigns_for event_type t.campaigns) j now t
        (λ e. out c (
          subst (λ (m : ℕ). find_contact m contacts ≡ some c) ((==_iff c.id k).0 e)
            (find_contact-own i c contacts f)))
        h

  react_keeps_none :
      (k now : ℕ) (r : OutboxRow) (target : ContactRef) (t : Tables)
      → HasOptedOut k
      → open_count k t.enrollments ≡ 0
      → open_count k (react other locked ids contacts r target now t).enrollments ≡ 0
  unfolding react_to
  react_keeps_none k now r absent t out h = h
  react_keeps_none k now r invalid t out h = h
  react_keeps_none k now r (valid i) t out h =
      elim (Bool-cases (r.event_type =ₛ event_do_not_engage)) [
        | inl e ↦ rw e (exit_keeps_none k i ExitReason.exit_do_not_engage now t.enrollments h)
        | inr e ↦ rw e (
            enroll_on_event_keeps_none k i (ids r.id) now r.event_type (find_contact i contacts) t
              out refl h)
      ]

  drain_keeps_none :
      (k now limit : ℕ) (rows : List OutboxRow) (t : Tables)
      → HasOptedOut k
      → open_count k t.enrollments ≡ 0
      → open_count k (drain_rows other locked ids contacts now limit rows t).0.enrollments ≡ 0
  unfolding drain_rows
  drain_keeps_none k now limit [] t out h = h
  drain_keeps_none k now limit (r ∷ rows) t out h =
      elim (Bool-cases (is_chosen other locked ids contacts limit r)) [
        | inl e ↦ rw e (
            drain_keeps_none k now (limit - 1) rows
              (react other locked ids contacts r (contact_ref other r.payload_json) now t) out
              (react_keeps_none k now r (contact_ref other r.payload_json) t out h))
        | inr e ↦ rw e (drain_keeps_none k now limit rows t out h)
      ]

  drain_first :
      (k now limit : ℕ) (after : List OutboxRow) (r : OutboxRow) (t : Tables)
      → HasOptedOut k
      → is_chosen other locked ids contacts limit r ≡ true
      → r.event_type =ₛ event_do_not_engage ≡ true
      → contact_ref other r.payload_json ≡ valid k
      → open_count k (drain_rows other locked ids contacts now limit (r ∷ after) t).0.enrollments
        ≡ 0
  unfolding drain_rows react_to
  drain_first k now limit after r t out chosen event target =
      rw (chosen, target, event)
        (drain_keeps_none k now (limit - 1) after (exit_contact k now t) out
          (exit_enrollments_lem k ExitReason.exit_do_not_engage now t.enrollments).0)

  step_chosen :
      (k now limit : ℕ) (x : OutboxRow) (rows : List OutboxRow) (t : Tables)
      → is_chosen other locked ids contacts limit x ≡ true
      → let t' = react other locked ids contacts x (contact_ref other x.payload_json) now t in
        open_count k (drain_rows other locked ids contacts now (limit - 1) rows t').0.enrollments
          ≡ 0
        → open_count k (drain_rows other locked ids contacts now limit (x ∷ rows) t).0.enrollments
          ≡ 0
  unfolding drain_rows
  step_chosen k now limit x rows t e h = rw e h

  step_passed :
      (k now limit : ℕ) (x : OutboxRow) (rows : List OutboxRow) (t : Tables)
      → is_chosen other locked ids contacts limit x ≡ false
      → open_count k (drain_rows other locked ids contacts now limit rows t).0.enrollments ≡ 0
      → open_count k (drain_rows other locked ids contacts now limit (x ∷ rows) t).0.enrollments ≡ 0
  unfolding drain_rows
  step_passed k now limit x rows t e h = rw e h

  drain_clears :
      (k now limit : ℕ) (before after : List OutboxRow) (r : OutboxRow) (t : Tables)
      → HasOptedOut k
      → length before < limit
      → is_undrained r ≡ true
      → locked r.id ≡ false
      → r.event_type =ₛ event_do_not_engage ≡ true
      → contact_ref other r.payload_json ≡ valid k
      → open_count k
          (drain_rows other locked ids contacts now limit (before ++ r ∷ after) t).0.enrollments
        ≡ 0
  drain_clears k now limit [] after r t out small fresh free event target =
      drain_first k now limit after r t out (ground (arith, small, fresh, free)) event target
  drain_clears k now limit (x ∷ before) after r t out small fresh free event target =
      elim (Bool-cases (is_chosen other locked ids contacts limit x)) [
        | inl e ↦ step_chosen k now limit x (before ++ r ∷ after) t e (
            drain_clears k now (limit - 1) before after r
              (react other locked ids contacts x (contact_ref other x.payload_json) now t) out
              (omega (arith, small)) fresh free event target)
        | inr e ↦ step_passed k now limit x (before ++ r ∷ after) t e (
            drain_clears k now limit before after r t out (omega (arith, small)) fresh free event
              target)
      ]

  -- If the outbox has an event do_not_engage of a contact among its first fifty rows, not drained and not
  -- locked, and the contact's row says that it has opted out, then the contact has no open enrollment
  -- after the drain, whatever the other events.
  pub drain_drip_enrollments-opted_out :
      (k now : ℕ) (before after : List OutboxRow) (r : OutboxRow) (t : Tables)
      → HasOptedOut k
      → length before < drip_drain_batch_size
      → is_undrained r ≡ true
      → locked r.id ≡ false
      → r.event_type =ₛ event_do_not_engage ≡ true
      → contact_ref other r.payload_json ≡ valid k
      → open_count k
          (drain_drip_enrollments other locked ids contacts now
            (before ++ r ∷ after)
            t).0.enrollments
        ≡ 0
  unfolding drain_drip_enrollments
  drain_drip_enrollments-opted_out k now before after r t out small fresh free event target =
      drain_clears k now drip_drain_batch_size before after r t out small fresh free event target
