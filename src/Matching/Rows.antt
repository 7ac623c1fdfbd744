-- ===== src/Matching/Rows.antt =====
-- The tables that matching reads and writes: `FacilitatingOrg`, `FacilitatorFpgCoverage`,
-- `AdopterInterest` and `Match` of models.py.
use jp_adopt_core.Prelude.{ℕ, String, Bool, true, false, Option, none, List}

-- The CHECK constraints keep `capacity_committed` between 0 and `capacity_total`.
pub record FacilitatingOrg : Type 0 where
  pub id : ℕ
  pub name : String
  pub country_code : Option String
  pub language_codes : List String
  pub capacity_total : ℕ
  pub capacity_committed : ℕ
  pub is_triage_org : Bool
  pub last_assigned_at : Option ℕ
  pub active : Bool

pub record AdopterInterest : Type 0 where
  pub id : ℕ
  pub contact_id : ℕ
  pub people_id3 : Option String
  pub commitment_level : Option String
  pub notes : Option String
  pub commitment_types : Option (List String)
  pub engagement_status : Option String
  pub facilitation_services : Option (List String)
  pub network_services : Option (List String)

-- The values that `ck_match_status` admits.
pub data MatchStatus : Type 0 where
  recommended accepted sent_back declined active completed withdrawn triage : MatchStatus

pub record Match : Type 0 where
  pub id : ℕ
  pub adopter_interest_id : ℕ
  pub facilitator_org_id : ℕ
  pub status : MatchStatus
  pub is_manual_override : Bool
  pub decided_at : Option ℕ
  pub decided_by : Option String
  pub decision_reason_code : Option String
  pub decision_reason_text : Option String

-- The statuses of the partial index `uq_match_open_per_interest`, and of
-- `_OPEN_MATCH_STATUSES_FOR_CONFLICT_REFETCH`.
abbrev pub is_open : MatchStatus → Bool
is_open recommended = true
is_open accepted = true
is_open active = true
is_open triage = true
is_open _ = false

-- The statuses that exclude a facilitator from a later run.
abbrev pub is_refusal : MatchStatus → Bool
is_refusal sent_back = true
is_refusal declined = true
is_refusal _ = false

-- An undecided match that no staff member forced.
abbrev pub undecided : ℕ → ℕ → ℕ → MatchStatus → Match
undecided match_id interest_id org_id status = record {
  id = match_id;
  adopter_interest_id = interest_id;
  facilitator_org_id = org_id;
  status = status;
  is_manual_override = false;
  decided_at = none;
  decided_by = none;
  decision_reason_code = none;
  decision_reason_text = none;
}
