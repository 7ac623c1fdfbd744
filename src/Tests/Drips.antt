-- ===== src/Tests/Drips.antt =====
-- Enrollments on a concrete campaign.
use jp_adopt_core.Prelude.{
  ap, sym, String, if◌then◌else◌, ◌+◌, ◌==◌, leb, ◌&&◌, map, ◌++◌, arith, inr, ℕ, Bool, ◌≡◌, ◌⊎◌,
  refl, true, false, none, some, List, [], ◌∷◌, All,
}
use mathlib.Core.Path.{subst}
use jp_adopt_core.Text.{Text, Unicode, codes, text_eq}
use jp_adopt_core.Magic.Rows.{normalize_email}
use jp_adopt_core.Models.{Contact}
use jp_adopt_core.Outbox.{OutboxRow, new_row, run_payload}
use jp_adopt_core.Decide.Parts.{or_else}
use jp_adopt_core.Drips.Drain.{absent, drain_drip_enrollments}
use jp_adopt_core.Drips.OptOut.{HasOptedOut, drain_drip_enrollments-opted_out}
use jp_adopt_core.Drips.Rows.{
  EventKind, Campaign, CampaignStep, active, is_open, Enrollment, Tables, next_step,
}
use jp_adopt_core.Drips.Engine.{
  opted_out, is_blocked, created, enroll_contact_in_campaign, enroll_on_event, advance_enrollment,
}
use jp_adopt_core.Drips.Tick.{
  DueStep, Outside, Counted, rendered, log, process_due, claim_due_steps, is_within_send_window,
  due_steps, due_step,
}
use jp_adopt_core.Http.{done}
use jp_adopt_core.Suppression.{
  SuppressionCreate, new_entry, add_suppression, add_to_suppression_list,
}
use jp_adopt_core.Suppression.Laws.{hashes, suppressed_exits}
use jp_adopt_core.Drips.TickLaws.{process_due_lem, IsDue, claim_due_steps_lem}
use jp_adopt_core.Drips.Laws.{IsOneOpen}
use jp_adopt_core.Drips.Enrolls.{IsSettled, IsEnrolled, enroll_on_event_enrolls}
use mathlib.Core.List.{Memᴰ}
use jp_adopt_core.Drips.Exits.{open_count}

abbrev cleo : Contact
cleo = record {
  id = 5;
  party_kind = "adopter";
  display_name = "Cleo";
  adopter_status = some "new";
  facilitator_status = none;
  version = 1;
  b2c_subject_id = none;
  email_normalized = some (codes "cleo@example.org");
  source_system = none;
  source_id = none;
  origin = none;
  newsletter_opt_in = false;
  country_code = none;
  language_codes = [];
  created_at = 0;
  updated_at = 0;
}

abbrev welcome : Campaign
welcome = record {
  id = 1;
  name = "welcome";
  version = 1;
  is_active = true;
  trigger_event_type = some "jp.adopt.v1.contact.submitted";
}

abbrev step_at : ℕ → ℕ → CampaignStep
step_at i position = record {
  id = i;
  campaign_id = 1;
  position = position;
  delay_days = 2;
  send_at_hour = 9;
  send_at_minute = 0;
  subject = "hello";
  mjml_template_name = some "welcome";
  body_html = none;
}

-- Positions 0, 4 and 2, with gaps and out of order.
abbrev welcome_steps : List CampaignStep
welcome_steps = step_at 11 0 ∷ step_at 12 4 ∷ step_at 13 2 ∷ []

abbrev at_position : ℕ → Enrollment
at_position p = record {
  id = 20;
  campaign_id = 1;
  contact_id = 5;
  campaign_version = 1;
  current_step_position = p;
  state = active;
  enrolled_at = 50;
  last_step_sent_at = none;
  exited_at = none;
  exit_reason = none;
}

abbrev ascii : Unicode
ascii = record {
  is_space = λ c. c == 32;
  lower = map (λ (c : ℕ). if leb 65 c && leb c 90 then c + 32 else c);
  casefold = λ t. t;
}

abbrev digest : Text → String
digest t = if text_eq t (codes "cleo@example.org") then "c1e0" else "0000"

abbrev tables : Tables
tables = record {
  campaigns = welcome ∷ [];
  steps = welcome_steps;
  enrollments = [];
  events = [];
  suppressed = [];
  unicode = ascii;
  sha256 = digest;
}

abbrev enrolled : Tables
enrolled = record tables { enrollments = at_position 0 ∷ [] }

created_first : (enroll_contact_in_campaign welcome cleo 20 50 tables).0.reason ≡ created
unfolding enroll_contact_in_campaign next_step
created_first = refl

enrolled-IsOneOpen : IsOneOpen enrolled.enrollments
enrolled-IsOneOpen = (inr refl, tt)

enroll_on_event_enrolls_example :
    let after =
      (enroll_on_event "jp.adopt.v1.contact.submitted" (some cleo) 20 60 tables).1.enrollments in
    All
      (λ e. Memᴰ e tables.enrollments ⊎ IsEnrolled tables "jp.adopt.v1.contact.submitted" cleo 60 e)
      after
    × ((cleo.adopter_status ≡ some "do_not_engage")
        ⊎ (is_blocked tables cleo.email_normalized ≡ true)
        ⊎ All (IsSettled "jp.adopt.v1.contact.submitted" after cleo) tables.campaigns)
    × IsOneOpen after
enroll_on_event_enrolls_example =
    enroll_on_event_enrolls tables "jp.adopt.v1.contact.submitted" cleo 60 20 tt

abbrev second_step : Enrollment
second_step = record (at_position 2) { last_step_sent_at = some 90 }

-- Every step renders and the mail service accepts every mail.
abbrev sunny : Outside
sunny = record { render = λ d. rendered; send_succeeds = λ d. true; clock = 36010 }

abbrev first_due : DueStep
first_due = record {
  enrollment = at_position 0;
  step = step_at 11 0;
  campaign = welcome;
  contact = cleo;
}

abbrev unlocked : ℕ → Bool
unlocked i = false

-- The first step is due at once, although its delay is two days.
claims_at_once : claim_due_steps unlocked 36000 50 enrolled (cleo ∷ []) ≡ first_due ∷ []
unfolding claim_due_steps due_steps due_step next_step
claims_at_once = refl

-- A contact without a status is enrolled, and never claimed.
null_status_never_due :
    let nameless = record cleo { adopter_status = none } in
    ((enroll_contact_in_campaign welcome nameless 20 50 tables).0.reason ≡ created)
    × (claim_due_steps unlocked 36000 50 enrolled (nameless ∷ []) ≡ [])
unfolding enroll_contact_in_campaign claim_due_steps due_steps due_step next_step
null_status_never_due = (refl, refl)

process_due_lem_example :
    let (counted, e, events) = process_due sunny 36000 enrolled first_due in
    ((counted ≡ Counted.sent)
      × (opted_out cleo ≡ false)
      × (is_blocked enrolled (some (codes "cleo@example.org")) ≡ false)
      × (is_within_send_window 36000 9 0 ≡ true)
      × (true ≡ true)
      × (e ≡ (advance_enrollment welcome_steps 36010 (at_position 0)).0)
      × (events ≡ log first_due EventKind.step_sent (some 0) ∷ []))
    ⊎ ((((counted ≡ Counted.deferred) × (events ≡ []))
          ⊎ ((counted ≡ Counted.failed)
              × (events ≡ log first_due EventKind.send_failed (some 0) ∷ [])))
        × (e ≡ at_position 0))
    ⊎ ((counted ≡ Counted.exited) × (is_open e.state ≡ false))
process_due_lem_example = process_due_lem sunny 36000 enrolled first_due refl

claim_due_steps_lem_example :
    All
      (IsDue unlocked 36000 enrolled (cleo ∷ []))
      (claim_due_steps unlocked 36000 50 enrolled (cleo ∷ []))
claim_due_steps_lem_example = claim_due_steps_lem unlocked 36000 50 enrolled (cleo ∷ [])

-- Cleo has asked not to be contacted, behind another event.
abbrev quiet_cleo : Contact
quiet_cleo = record cleo { adopter_status = some "do_not_engage" }

abbrev submitted : OutboxRow
submitted = new_row 1 "jp.adopt.v1.contact.submitted" (run_payload "e" "v" 5 0 0 0 0)

abbrev withdrawn : OutboxRow
withdrawn = new_row 2 "jp.adopt.v1.contact.do_not_engage" (run_payload "e" "v" 5 0 0 0 0)

quiet_cleo-HasOptedOut : HasOptedOut (λ s. absent) (λ i. false) (λ i. i) (quiet_cleo ∷ []) 5
quiet_cleo-HasOptedOut x h =
    subst (λ (y : Contact). opted_out y ≡ true) (ap (or_else quiet_cleo) h) refl

drain_drip_enrollments-opted_out_example :
    open_count 5
      (drain_drip_enrollments
        (λ s. absent)
        (λ i. false)
        (λ i. i)
        (quiet_cleo ∷ [])
        90
        ((submitted ∷ []) ++ withdrawn ∷ [])
        enrolled).0.enrollments
    ≡ 0
drain_drip_enrollments-opted_out_example =
    drain_drip_enrollments-opted_out (λ s. absent) (λ i. false) (λ i. i) (quiet_cleo ∷ []) 5 90
      (submitted ∷ []) [] withdrawn enrolled quiet_cleo-HasOptedOut (omega arith) refl refl refl
      refl

abbrev complaint : SuppressionCreate
complaint = record {
  email = codes " Cleo@Example.org. ";
  reason = "manual";
  source_metadata = none;
}

abbrev with_complaint : Tables
with_complaint = record enrolled { suppressed = "c1e0" ∷ [] }

same_address :
    normalize_email ascii (codes "cleo@example.org") ≡ normalize_email ascii complaint.email
unfolding normalize_email
same_address = refl

added_complaint :
    add_suppression ("staff_admin" ∷ []) ascii digest 9 complaint []
    ≡ (done (new_entry "c1e0" 9 complaint), new_entry "c1e0" 9 complaint ∷ [])
unfolding add_suppression add_to_suppression_list normalize_email
added_complaint = refl

suppressed_exits_example :
    let (counted, e, events) = process_due sunny 36000 with_complaint first_due in
    (counted ≡ Counted.exited) × (is_open e.state ≡ false)
suppressed_exits_example =
    suppressed_exits ("staff_admin" ∷ []) 9 complaint [] (new_entry "c1e0" 9 complaint) sunny 36000
      with_complaint first_due (codes "cleo@example.org") (ap (λ x. x.0) added_complaint)
      (ap (λ x. hashes x.1) (sym added_complaint)) refl refl same_address refl
