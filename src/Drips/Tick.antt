-- ===== src/Drips/Tick.antt =====
-- One worker tick: `claim_due_steps` of domain/drips.py, and `_process_due_steps` of
-- tasks/send_drip_step.py.
use jp_adopt_core.Prelude.{
  ℕ, ◌+◌, ◌*◌, ◌%◌, String, Bool, false, not, Option, none, some, List, [], ◌∷◌, ◌++◌,
  if◌then◌else◌, ◌=ₛ◌, ◌==◌, leb, ◌&&◌, take,
}
use jp_adopt_core.Text.{Text, text_eq}
use jp_adopt_core.Models.{Contact}
use jp_adopt_core.Drips.Rows.{
  Campaign, CampaignStep, is_active, ExitReason, exit_do_not_engage, exit_suppressed,
  exit_template_missing, exit_no_email, Enrollment, EventKind, EnrollmentEvent, Tables, next_step,
}
use jp_adopt_core.Drips.Engine.{
  opted_out, is_blocked, exit_enrollment, delay_over, advance_enrollment,
}

pub record DueStep : Type 0 where
  pub enrollment : Enrollment
  pub step : CampaignStep
  pub campaign : Campaign
  pub contact : Contact

abbrev pub find_campaign : ℕ → List Campaign → Option Campaign
find_campaign i [] = none
find_campaign i (c ∷ cs) = if c.id == i then some c else find_campaign i cs

abbrev pub find_contact : ℕ → List Contact → Option Contact
find_contact i [] = none
find_contact i (c ∷ cs) = if c.id == i then some c else find_contact i cs

-- `Contact.adopter_status != 'do_not_engage'` in SQL, which a NULL status does not satisfy.
abbrev pub status_differs : Option String → Bool
status_differs none = false
status_differs (some s) = not (s =ₛ "do_not_engage")

abbrev pub due_row :
    ℕ → Enrollment → Option Campaign → Option CampaignStep → Option Contact → Option DueStep
due_row now e none step contact = none
due_row now e (some campaign) none contact = none
due_row now e (some campaign) (some step) none = none
due_row now e (some campaign) (some step) (some contact) =
    if is_active e.state
      && campaign.is_active
      && status_differs contact.adopter_status
      && delay_over now step.delay_days e.last_step_sent_at
    then some (record { enrollment = e; step = step; campaign = campaign; contact = contact })
    else none

-- The joins and the condition of the query, for one enrollment.
unfoldable pub due_step : ℕ → Tables → List Contact → Enrollment → Option DueStep
due_step now t contacts e =
    due_row now e (find_campaign e.campaign_id t.campaigns)
      (next_step e.campaign_id e.current_step_position t.steps) (find_contact e.contact_id contacts)

-- `ORDER BY enrolled_at`
abbrev pub insert_by_age : DueStep → List DueStep → List DueStep
insert_by_age d [] = d ∷ []
insert_by_age d (x ∷ xs) =
    if leb d.enrollment.enrolled_at x.enrollment.enrolled_at
    then d ∷ x ∷ xs
    else x ∷ insert_by_age d xs

abbrev pub add_due : Bool → Option DueStep → List DueStep → List DueStep
add_due locked none rest = rest
add_due locked (some d) rest = if locked then rest else insert_by_age d rest

-- The due enrollments that no other worker has locked, oldest first.
unfoldable pub due_steps : (ℕ → Bool) → ℕ → Tables → List Contact → List Enrollment → List DueStep
unfolding due_step
due_steps locked now t contacts [] = []
due_steps locked now t contacts (e ∷ es) =
    add_due (locked e.id) (due_step now t contacts e) (due_steps locked now t contacts es)

-- `claim_due_steps`
unfoldable pub claim_due_steps : (ℕ → Bool) → ℕ → ℕ → Tables → List Contact → List DueStep
claim_due_steps locked now limit t contacts =
    take limit (due_steps locked now t contacts t.enrollments)

-- `_is_within_send_window`, in UTC.
unfoldable pub is_within_send_window : ℕ → ℕ → ℕ → Bool
is_within_send_window now hour minute = leb (hour * 3600 + minute * 60) (now % 86400)

-- What the template renderer does with a step.
pub data Rendering : Type 0 where
  rendered template_missing render_failed : Rendering

-- What the renderer and the mail service do, and what the clock reads during the tick.
pub record Outside : Type 0 where
  pub render : DueStep → Rendering
  pub send_succeeds : DueStep → Bool
  pub clock : ℕ

-- The four counters of a tick.
pub data Counted : Type 0 where
  sent deferred exited failed : Counted

abbrev pub log : DueStep → EventKind → Option ℕ → EnrollmentEvent
log d kind position = record {
  enrollment_id = d.enrollment.id;
  event_type = kind;
  step_position = position;
}

-- What one due step comes to: the counter, the enrollment afterwards and the events.
abbrev pub Effect : Type 0
Effect = Counted × Enrollment × List EnrollmentEvent

abbrev pub exit_with : Outside → ExitReason → DueStep → List EnrollmentEvent → Effect
exit_with out reason d logged =
    let (e, events) = exit_enrollment reason out.clock d.enrollment in (exited, e, logged ++ events)

-- The send and the advance.
abbrev pub send_step : Outside → Tables → DueStep → Option Text → Effect
send_step out t d none = exit_with out exit_no_email d (log d EventKind.send_failed none ∷ [])
send_step out t d (some email) =
    if text_eq email []
    then exit_with out exit_no_email d (log d EventKind.send_failed none ∷ [])
    else if out.send_succeeds d
    then (
      sent,
      (advance_enrollment t.steps out.clock d.enrollment).0,
      log d EventKind.step_sent (some d.step.position) ∷ [],
    )
    else (failed, d.enrollment, log d EventKind.send_failed (some d.step.position) ∷ [])

abbrev pub render_and_send : Outside → Tables → DueStep → Rendering → Effect
render_and_send out t d template_missing =
    exit_with out exit_template_missing d (log d EventKind.send_failed_template_missing none ∷ [])
render_and_send out t d render_failed =
    exit_with out exit_template_missing d (log d EventKind.send_failed none ∷ [])
render_and_send out t d rendered = send_step out t d d.contact.email_normalized

-- The body of the loop.
unfoldable pub process_due : Outside → ℕ → Tables → DueStep → Effect
unfolding exit_enrollment advance_enrollment is_within_send_window
process_due out now t d =
    if opted_out d.contact
    then exit_with out exit_do_not_engage d []
    else if is_blocked t d.contact.email_normalized
    then exit_with out exit_suppressed d []
    else if not (is_within_send_window now d.step.send_at_hour d.step.send_at_minute)
    then (deferred, d.enrollment, [])
    else render_and_send out t d (out.render d)

pub record Counts : Type 0 where
  pub sent : ℕ
  pub deferred : ℕ
  pub exited : ℕ
  pub failed : ℕ

abbrev pub tally : Counted → Counts → Counts
tally Counted.sent c = record c { sent = c.sent + 1 }
tally Counted.deferred c = record c { deferred = c.deferred + 1 }
tally Counted.exited c = record c { exited = c.exited + 1 }
tally Counted.failed c = record c { failed = c.failed + 1 }

-- The enrollment's row after the flush.
abbrev pub put_enrollment : Enrollment → List Enrollment → List Enrollment
put_enrollment e [] = []
put_enrollment e (x ∷ xs) =
    if x.id == e.id then e ∷ put_enrollment e xs else x ∷ put_enrollment e xs

abbrev pub apply_effect : Enrollment → List EnrollmentEvent → Tables → Tables
apply_effect e events t = record t {
  enrollments = put_enrollment e t.enrollments;
  events = t.events ++ events;
}

-- The loop over the claimed steps.
unfoldable pub process_steps : Outside → ℕ → List DueStep → Counts → Tables → Counts × Tables
unfolding process_due
process_steps out now [] c t = (c, t)
process_steps out now (d ∷ ds) c t =
    let (counted, e, events) = process_due out now t d in
    process_steps out now ds (tally counted c) (apply_effect e events t)

-- `_process_due_steps`
unfoldable pub process_due_steps :
    Outside → (ℕ → Bool) → ℕ → List Contact → Tables → Counts × Tables
unfolding process_steps claim_due_steps
process_due_steps out locked now contacts t =
    process_steps out now (claim_due_steps locked now 50 t contacts)
      (record { sent = 0; deferred = 0; exited = 0; failed = 0 }) t
