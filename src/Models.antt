-- ===== src/Models.antt =====
-- The columns of models.py that the modelled code reads or writes. A UUID is a number, a timestamp
-- the number of seconds since an epoch.
use jp_adopt_core.Prelude.{ℕ, String, Bool, Option, List}
use jp_adopt_core.Text.{Text}

-- `Contact`, without the columns that no modelled code touches; languages that are NULL are none.
pub record Contact : Type 0 where
  pub id : ℕ
  pub party_kind : String
  pub display_name : String
  pub adopter_status : Option String
  pub facilitator_status : Option String
  pub version : ℕ
  pub b2c_subject_id : Option String
  pub email_normalized : Option Text
  pub source_system : Option String
  pub source_id : Option String
  pub origin : Option String
  pub newsletter_opt_in : Bool
  pub country_code : Option String
  pub language_codes : List String
  pub created_at : ℕ
  pub updated_at : ℕ

-- `TransitionAudit`.
pub record TransitionAudit : Type 0 where
  pub id : ℕ
  pub contact_id : ℕ
  pub from_state : String
  pub to_state : String
  pub actor_id : String
  pub actor_role : String
  pub reason_code : Option String
  pub reason_text : Option String
  pub outbox_event_ids : Option (List ℕ)

-- `FpgInterestIn` of schemas.py: one people group that a form selects.
pub record FpgInterest : Type 0 where
  pub people_id3 : String
  pub commitment_level : Option String
  pub notes : Option String
  pub commitment_types : Option (List String)
  pub engagement_status : Option String
  pub facilitation_services : Option (List String)
  pub network_services : Option (List String)
