-- ===== src/Drips/Rows.antt =====
-- The tables of the drip engine: `Campaign`, `CampaignStep`, `Enrollment`, `EnrollmentEvent` and
-- `SuppressionList` of models.py. Timestamps count seconds.
use jp_adopt_core.Prelude.{
  ℕ, String, Bool, true, false, Option, none, some, List, [], ◌∷◌, if◌then◌else◌, ◌==◌, leb, ◌&&◌,
}
use jp_adopt_core.Text.{Text, Unicode}
use jp_adopt_core.Magic.Rows.{normalize_email}

pub record Campaign : Type 0 where
  pub id : ℕ
  pub name : String
  pub version : ℕ
  pub is_active : Bool
  pub trigger_event_type : Option String

pub record CampaignStep : Type 0 where
  pub id : ℕ
  pub campaign_id : ℕ
  pub position : ℕ
  pub delay_days : ℕ
  pub send_at_hour : ℕ
  pub send_at_minute : ℕ
  pub subject : String
  pub mjml_template_name : Option String
  pub body_html : Option String

-- The values that `ck_enrollment_state` admits.
pub data EnrollmentState : Type 0 where
  pending active paused completed exited : EnrollmentState

-- `Enrollment.state.in_(("pending", "active", "paused"))`
abbrev pub is_open : EnrollmentState → Bool
is_open pending = true
is_open active = true
is_open paused = true
is_open completed = false
is_open exited = false

abbrev pub is_active : EnrollmentState → Bool
is_active active = true
is_active pending = false
is_active paused = false
is_active completed = false
is_active exited = false

pub data ExitReason : Type 0 where
  exit_completed exit_do_not_engage exit_suppressed exit_bounce_hard exit_bounce_soft_retried
        exit_template_missing exit_manual exit_no_email :
      ExitReason

pub record Enrollment : Type 0 where
  pub id : ℕ
  pub campaign_id : ℕ
  pub contact_id : ℕ
  pub campaign_version : ℕ
  pub current_step_position : ℕ
  pub state : EnrollmentState
  pub enrolled_at : ℕ
  pub last_step_sent_at : Option ℕ
  pub exited_at : Option ℕ
  pub exit_reason : Option ExitReason

pub data EventKind : Type 0 where
  step_sent send_failed send_failed_template_missing paused resumed exited : EventKind

-- A row of the append-only log: the enrollment, the kind of event and, where the payload has one, the
-- step's position.
pub record EnrollmentEvent : Type 0 where
  pub enrollment_id : ℕ
  pub event_type : EventKind
  pub step_position : Option ℕ

-- `email_hash`: the SHA-256 of the normalised address.
abbrev pub email_hash : Unicode → (Text → String) → Text → String
email_hash u sha256 email = sha256 (normalize_email u email)

-- The tables, with the functions that `email_hash` uses: the keys of the suppression list are such
-- hashes.
pub record Tables : Type 0 where
  pub campaigns : List Campaign
  pub steps : List CampaignStep
  pub enrollments : List Enrollment
  pub events : List EnrollmentEvent
  pub suppressed : List String
  pub unicode : Unicode
  pub sha256 : Text → String

-- The lowest position among the campaign's steps from `from` on: `ORDER BY position LIMIT 1`.
abbrev pub min_step : Option CampaignStep → Option CampaignStep → Option CampaignStep
min_step none b = b
min_step (some a) none = some a
min_step (some a) (some b) = if leb a.position b.position then some a else some b

unfoldable pub next_step : ℕ → ℕ → List CampaignStep → Option CampaignStep
next_step campaign_id from [] = none
next_step campaign_id from (s ∷ ss) =
    let rest = next_step campaign_id from ss in
    if s.campaign_id == campaign_id && leb from s.position then min_step (some s) rest else rest
