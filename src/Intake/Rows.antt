-- ===== src/Intake/Rows.antt =====
-- The tables, the submissions and the answers of routers/intake.py, and what it takes from Python and
-- pydantic. A JSON value that is only stored or echoed is its serialised text.
use jp_adopt_core.Prelude.{ℕ, String, Bool, Option, List, ◌⊎◌}
use jp_adopt_core.Models.{FpgInterest}
use jp_adopt_core.Outbox.{Session}
use jp_adopt_core.Text.{Text, Unicode}
use jp_adopt_core.Matching.Rows.{AdopterInterest}

-- `ConsentIn`, and a row of `Consent`.
pub record ConsentIn : Type 0 where
  pub consent_type : String
  pub version : String
  pub content_hash : String
  pub accepted_at : ℕ
  pub conversation_id : Option String
  pub evidence : Option String

pub record Consent : Type 0 where
  pub id : ℕ
  pub contact_id : ℕ
  pub consent : ConsentIn

-- The columns of `ContactProfile` that are not NULL, by name.
pub record ContactProfile : Type 0 where
  pub id : ℕ
  pub contact_id : ℕ
  pub columns : List (String × String)

pub record SubmissionBlocked : Type 0 where
  pub contact_id : ℕ
  pub email_normalized : Text
  pub reason : String
  pub source : String
  pub party_kind : String
  pub received_at : ℕ

pub record IntakeApiKey : Type 0 where
  pub id : ℕ
  pub key_hash : Text
  pub revoked_at : Option ℕ
  pub last_used_at : Option ℕ
  pub last_used_ip : Option Text
  pub last_used_user_agent : Option Text

-- `dict[str, list[str]]`
abbrev pub Fields : Type 0
Fields = List (String × List String)

-- `IntakeSuccess` and `IntakeError`, without the constants `apiVersion` and `ok`.
pub data Body : Type 0 where
  success : (submission_id request_id contact_id : ℕ) → (interest_ids : List ℕ) → Body
  error :
      (code : String)
      → (request_id : ℕ) → (message : Option String) → (fields : Option Fields)
      → (max_bytes : Option ℕ) → Body

-- A `JSONResponse`; encoding its body and decoding it again is the identity.
pub record Response : Type 0 where
  pub status_code : ℕ
  pub body : Body

pub data KeyState : Type 0 where
  pending completed : KeyState

pub record ApiIdempotencyKey : Type 0 where
  pub api_key_id : Text
  pub key : Text
  pub request_hash : Text
  pub status_code : Option ℕ
  pub response_body : Option Body
  pub state : KeyState
  pub created_at : ℕ
  pub completed_at : Option ℕ
  pub expires_at : ℕ

-- The tables; `fpgs` are the codes of `Fpg`.
pub record Desk : Type 0 where
  pub session : Session
  pub profiles : List ContactProfile
  pub consents : List Consent
  pub interests : List AdopterInterest
  pub fpgs : List String
  pub blocked : List SubmissionBlocked
  pub idempotency : List ApiIdempotencyKey
  pub api_keys : List IntakeApiKey

-- `AdoptionIntake` and `FacilitationIntake`; the name of an organisation is that of the second.
pub data Domain : Type 0 where
  adoption facilitation : Domain

pub record Submission : Type 0 where
  pub email : Text
  pub display_name : String
  pub origin : Option String
  pub newsletter_opt_in : Bool
  pub country_code : Option String
  pub language_codes : List String
  pub profile : Option (List (String × String))
  pub consents : List ConsentIn
  pub fpg_selections : List FpgInterest
  pub organization_name : Option String

-- Keyword arguments that only the importers give.
pub record Import : Type 0 where
  pub request_id : Option ℕ
  pub override_created_at : Option ℕ
  pub source_system : Option String
  pub source_id : Option String

-- What `uuid4` and the clock return: rows that a loop writes are numbered.
pub record Fresh : Type 0 where
  pub now : ℕ
  pub request_id : ℕ
  pub contact_id : ℕ
  pub profile_id : ℕ
  pub interest_id : ℕ → ℕ
  pub consent_id : ℕ → ℕ
  pub submission_id : ℕ
  pub received_event_id : ℕ
  pub submitted_event_id : ℕ

-- Settings, and Python's functions on texts: `str.strip`, `str` of a list, concatenation.
pub record Settings : Type 0 where
  pub unicode : Unicode
  pub strip : String → String
  pub repr_list : List String → String
  pub concat : String → String → String
  pub sha256 : Text → Text
  pub is_production : Bool
  pub intake_api_keys_list : List Text
  pub intake_default_origin : String

-- `json.loads` of the decoded body, and `model_validate`: its errors are locations with messages.
pub record Codec (J : Type 0) : Type 0 where
  pub loads : Text → Option J
  pub validate : Domain → J → Submission ⊎ List (List String × String)

-- An exception that the handler lets escape.
pub data Escape : Type 0 where
  integrity_error type_error : Escape

-- `IntakeValidationError`, or an exception that escapes.
pub data Failure : Type 0 where
  invalid : (message : Option String) → (fields : Fields) → Failure
  escaped : Escape → Failure

pub data Result (A : Type 0) : Type 0 where
  ok : A → Result A
  err : Failure → Result A

abbrev pub Action : Type 0 → Type 0
Action A = Desk → Result A × Desk

infixl 5 ◌>>=◌ ◌>>◌
abbrev pub ◌>>=◌ : {A B : Type 0} → Action A → (A → Action B) → Action B
◌>>=◌ m f d = let (r, d') = m d in elim r [ ok a ↦ f a d' | err e ↦ (err e, d') ]

abbrev pub ◌>>◌ : {A B : Type 0} → Action A → Action B → Action B
m >> k = m >>= λ _. k

abbrev pub pure : {A : Type 0} → A → Action A
pure a d = (ok a, d)

abbrev pub raise : {A : Type 0} → Failure → Action A
raise e d = (err e, d)

abbrev pub modify : (Desk → Desk) → Action (Unit {0})
modify f d = (ok tt, f d)

abbrev pub reads : {A : Type 0} → (Desk → A) → Action A
reads f d = (ok (f d), d)
