-- ===== src/Digest/Rows.antt =====
-- The tables that the digest reads and writes.
use jp_adopt_core.Prelude.{ℕ, String, Bool, Option, List}
use jp_adopt_core.Models.{Contact}
use jp_adopt_core.Text.{Text}
use jp_adopt_core.Matching.Rows.{FacilitatingOrg, AdopterInterest, Match, MatchStatus}

-- A row of `Match` with its column `recommended_at`.
pub record StampedMatch : Type 0 where
  pub row : Match
  pub recommended_at : ℕ

-- `StaffProfile`; `is_active` is its status `active`.
pub record StaffProfile : Type 0 where
  pub b2c_subject_id : String
  pub email_normalized : Text
  pub digest_opt_in : Bool
  pub is_active : Bool

-- `DigestMatch`
pub record DigestMatch : Type 0 where
  pub match_id : ℕ
  pub contact_id : ℕ
  pub contact_display_name : String
  pub contact_email_normalized : Option Text
  pub people_id3 : Option String
  pub facilitator_org_id : ℕ
  pub facilitator_name : String
  pub status : MatchStatus
  pub recommended_at : ℕ

pub data RecipientKind : Type 0 where
  all_staff adoption_manager facilitator : RecipientKind

-- `DigestRecipientPlan`
pub record DigestRecipientPlan : Type 0 where
  pub recipient_address : Text
  pub recipient_kind : RecipientKind
  pub facilitator_org_id : Option ℕ
  pub matches : List DigestMatch

pub data RunStatus : Type 0 where
  pending sent failed empty : RunStatus

pub record DigestRun : Type 0 where
  pub id : ℕ
  pub window_start : ℕ
  pub window_end : ℕ
  pub status : RunStatus
  pub recipient_count : ℕ
  pub match_count : ℕ

-- `DigestRecipient`; `delivered` is its status, sent or failed.
pub record DigestRecipient : Type 0 where
  pub digest_run_id : ℕ
  pub plan : DigestRecipientPlan
  pub delivered : Bool

-- `roles` joins `UserRole` and `Role`: a subject with a role's name.
pub record Tables : Type 0 where
  pub matches : List StampedMatch
  pub interests : List AdopterInterest
  pub contacts : List Contact
  pub orgs : List FacilitatingOrg
  pub memberships : List (String × ℕ)
  pub roles : List (String × String)
  pub profiles : List StaffProfile
  pub runs : List DigestRun
  pub recipients : List DigestRecipient
