-- ===== src/Drips/Engine.antt =====
-- Enrollment, exit, the choice of due steps and the advance: domain/drips.py.
use jp_adopt_core.Prelude.{
  ℕ, suc, ◌+◌, ◌*◌, String, Bool, true, false, not, Option, none, some, List, [], ◌∷◌, ◌++◌,
  if◌then◌else◌, ◌=ₛ◌, ◌==◌, leb, ◌&&◌, in_texts,
}
use jp_adopt_core.Text.{Text, text_eq}
use jp_adopt_core.Models.{Contact}
use jp_adopt_core.Drips.Rows.{
  email_hash, Campaign, CampaignStep, EnrollmentState, active, is_open, ExitReason, Enrollment,
  EventKind, EnrollmentEvent, Tables, next_step,
}

pub data EnrollReason : Type 0 where
  created already_enrolled suppressed do_not_engage no_campaign no_contact : EnrollReason

pub record EnrollmentOutcome : Type 0 where
  pub enrollment_id : Option ℕ
  pub reason : EnrollReason

abbrev pub opted_out : Contact → Bool
opted_out c = elim c.adopter_status [ none ↦ false | some s ↦ s =ₛ "do_not_engage" ]

-- `is_suppressed`
abbrev pub is_suppressed : Tables → Text → Bool
is_suppressed t email =
    if text_eq email [] then false else in_texts (email_hash t.unicode t.sha256 email) t.suppressed

-- `contact_email and await is_suppressed(session, contact_email)`
abbrev pub is_blocked : Tables → Option Text → Bool
is_blocked t none = false
is_blocked t (some email) = is_suppressed t email

-- The row that `uq_enrollment_open_per_campaign_contact` conflicts with.
abbrev pub find_open : ℕ → ℕ → List Enrollment → Option Enrollment
find_open campaign_id contact_id [] = none
find_open campaign_id contact_id (e ∷ es) =
    if e.campaign_id == campaign_id && e.contact_id == contact_id && is_open e.state
    then some e
    else find_open campaign_id contact_id es

abbrev pub start_position : Option CampaignStep → ℕ
start_position none = 0
start_position (some s) = s.position

-- The enrollment that is tried; the server fills `enrolled_at`.
abbrev pub new_enrollment : Tables → Campaign → Contact → ℕ → ℕ → Enrollment
new_enrollment t campaign contact new_id now = record {
  id = new_id;
  campaign_id = campaign.id;
  contact_id = contact.id;
  campaign_version = campaign.version;
  current_step_position = start_position (next_step campaign.id 0 t.steps);
  state = active;
  enrolled_at = now;
  last_step_sent_at = none;
  exited_at = none;
  exit_reason = none;
}

abbrev pub insert_enrollment : Enrollment → Option Enrollment → Tables → EnrollmentOutcome × Tables
insert_enrollment e none t = (
  record { enrollment_id = some e.id; reason = created },
  record t { enrollments = t.enrollments ++ e ∷ [] },
)
insert_enrollment e (some old) t =
    (record { enrollment_id = some old.id; reason = already_enrolled }, t)

-- `enroll_contact_in_campaign`
unfoldable pub enroll_contact_in_campaign :
    Campaign → Contact → ℕ → ℕ → Tables → EnrollmentOutcome × Tables
enroll_contact_in_campaign campaign contact new_id now t =
    if opted_out contact
    then (record { enrollment_id = none; reason = do_not_engage }, t)
    else if is_blocked t contact.email_normalized
    then (record { enrollment_id = none; reason = suppressed }, t)
    else insert_enrollment (new_enrollment t campaign contact new_id now)
        (find_open campaign.id contact.id t.enrollments) t

-- `_find_active_campaigns_for_event`
abbrev pub has_trigger : String → Option String → Bool
has_trigger event_type none = false
has_trigger event_type (some e) = e =ₛ event_type

unfoldable pub active_campaigns_for : String → List Campaign → List Campaign
active_campaigns_for event_type [] = []
active_campaigns_for event_type (c ∷ cs) =
    if c.is_active && has_trigger event_type c.trigger_event_type
    then c ∷ active_campaigns_for event_type cs
    else active_campaigns_for event_type cs

-- The loop of `enroll_on_event`; each enrollment takes the next identifier.
unfoldable pub enroll_all :
    List Campaign → Contact → ℕ → ℕ → Tables → List EnrollmentOutcome × Tables
enroll_all [] contact next_id now t = ([], t)
enroll_all (c ∷ cs) contact next_id now t =
    let (o, t') = enroll_contact_in_campaign c contact next_id now t in
    let (os, t'') = enroll_all cs contact (next_id + 1) now t' in (o ∷ os, t'')

abbrev pub enroll_matching :
    List Campaign → Contact → ℕ → ℕ → Tables → List EnrollmentOutcome × Tables
enroll_matching [] contact next_id now t =
    (record { enrollment_id = none; reason = no_campaign } ∷ [], t)
enroll_matching (c ∷ cs) contact next_id now t = enroll_all (c ∷ cs) contact next_id now t

-- `enroll_on_event`, for the contact that `session.get` returned.
unfoldable pub enroll_on_event :
    String → Option Contact → ℕ → ℕ → Tables → List EnrollmentOutcome × Tables
enroll_on_event event_type none next_id now t =
    (record { enrollment_id = none; reason = no_contact } ∷ [], t)
enroll_on_event event_type (some contact) next_id now t =
    enroll_matching (active_campaigns_for event_type t.campaigns) contact next_id now t

-- `exit_enrollment`: the enrollment afterwards, and the events that are logged.
unfoldable pub exit_enrollment : ExitReason → ℕ → Enrollment → Enrollment × List EnrollmentEvent
exit_enrollment reason now e = if not (is_open e.state) then (e, []) else (
  record e { state = EnrollmentState.exited; exited_at = some now; exit_reason = some reason },
  record { enrollment_id = e.id; event_type = EventKind.exited; step_position = none } ∷ [],
)

-- `exit_enrollments_for_contact`: the enrollments, the events and the count.
unfoldable pub exit_enrollments_for_contact :
    ℕ → ExitReason → ℕ → List Enrollment → List Enrollment × List EnrollmentEvent × ℕ
unfolding exit_enrollment
exit_enrollments_for_contact contact_id reason now [] = ([], [], 0)
exit_enrollments_for_contact contact_id reason now (e ∷ es) =
    let (rest, events, n) = exit_enrollments_for_contact contact_id reason now es in
    if e.contact_id == contact_id && is_open e.state
    then (let (e', logged) = exit_enrollment reason now e in (e' ∷ rest, logged ++ events, suc n))
    else (e ∷ rest, events, n)

-- `last_step_sent_at IS NULL OR last_step_sent_at + delay_days <= now`
abbrev pub delay_over : ℕ → ℕ → Option ℕ → Bool
delay_over now delay_days none = true
delay_over now delay_days (some sent) = leb (sent + delay_days * 86400) now

-- `advance_enrollment`: the enrollment afterwards, and whether it advanced.
abbrev pub advance_to : ℕ → Enrollment → Option CampaignStep → Enrollment × Bool
advance_to sent_at e none = (
  record e {
    last_step_sent_at = some sent_at;
    state = EnrollmentState.completed;
    exited_at = some sent_at;
    exit_reason = some ExitReason.exit_completed;
  },
  false,
)
advance_to sent_at e (some s) =
    (record e { last_step_sent_at = some sent_at; current_step_position = s.position }, true)

unfoldable pub advance_enrollment : List CampaignStep → ℕ → Enrollment → Enrollment × Bool
advance_enrollment steps sent_at e =
    advance_to sent_at e (next_step e.campaign_id (suc e.current_step_position) steps)
