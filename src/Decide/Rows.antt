-- ===== src/Decide/Rows.antt =====
-- What a request on matches works on: the transaction's tables, the caller, and the request's body.
use jp_adopt_core.Prelude.{
  ℕ, String, Bool, true, false, not, Option, none, some, List, [], ◌∷◌, if◌then◌else◌, ◌=ₛ◌, ◌==◌,
  ◌&&◌, ◌||◌, in_texts,
}
use jp_adopt_core.Models.{Contact}
use jp_adopt_core.Outbox.{Session}
use jp_adopt_core.Workflow.States.{ReasonCode}
use jp_adopt_core.Matching.Rows.{
  FacilitatingOrg, AdopterInterest, Match, MatchStatus, recommended, accepted, active, triage,
}
use jp_adopt_core.Matching.Process.{Tables}

-- The tables of matching, the contacts, outbox and audits, and `FacilitatorOrgMembership` as pairs of
-- user and organisation.
pub record Store (F : Type 0) : Type 0 where
  pub session : Session
  pub tables : Tables F
  pub memberships : List (String × ℕ)

-- The caller: the subject of the token, and the roles.
pub record Actor : Type 0 where
  pub sub : String
  pub roles : List String

-- `DecisionVerb`
pub data DecisionVerb : Type 0 where
  accept send_back route_elsewhere : DecisionVerb

pub record DecideRequest : Type 0 where
  pub decision : DecisionVerb
  pub reason_code : Option ReasonCode
  pub reason_text : Option String
  pub next_attempt_id : Option ℕ
  pub facilitator_org_id : Option ℕ

-- What the clock and `uuid4` return during a request.
pub record Fresh : Type 0 where
  pub now : ℕ
  pub audit_id : ℕ
  pub transition_event_id : ℕ
  pub event_id : ℕ
  pub match_id : ℕ
  pub attempt_id : ℕ
  pub run_id : ℕ

abbrev pub is_route : DecisionVerb → Bool
is_route accept = false
is_route send_back = false
is_route route_elsewhere = true

abbrev pub is_some : {A : Type 0} → Option A → Bool
is_some none = false
is_some (some a) = true

-- `_validate_route_elsewhere_fields`: false is the ValueError, which answers 422.
unfoldable pub validate_route_elsewhere_fields : DecideRequest → Bool
validate_route_elsewhere_fields body =
    if is_some body.next_attempt_id && not (is_route body.decision)
    then false
    else if is_some body.facilitator_org_id && not (is_route body.decision)
    then false
    else not (is_some body.facilitator_org_id && is_some body.next_attempt_id)

-- `QUEUE_STATUSES`
abbrev pub in_queue : MatchStatus → Bool
in_queue recommended = true
in_queue triage = true
in_queue accepted = true
in_queue _ = false

-- `_RESERVED_MATCH_STATUSES`
abbrev pub is_reserved : MatchStatus → Bool
is_reserved accepted = true
is_reserved active = true
is_reserved _ = false

abbrev pub is_triage : MatchStatus → Bool
is_triage triage = true
is_triage _ = false

-- `roles & allowed` is not empty.
abbrev pub has_any : List String → List String → Bool
has_any [] allowed = false
has_any (r ∷ roles) allowed = in_texts r allowed || has_any roles allowed

-- `_load_visible_org_ids`
abbrev pub visible_org_ids : String → List (String × ℕ) → List ℕ
visible_org_ids sub [] = []
visible_org_ids sub ((user, org_id) ∷ rest) =
    if user =ₛ sub then org_id ∷ visible_org_ids sub rest else visible_org_ids sub rest

-- `db.get` of the tables.
abbrev pub find_match : ℕ → List Match → Option Match
find_match i [] = none
find_match i (m ∷ ms) = if m.id == i then some m else find_match i ms

abbrev pub find_org : ℕ → List FacilitatingOrg → Option FacilitatingOrg
find_org i [] = none
find_org i (o ∷ os) = if o.id == i then some o else find_org i os

abbrev pub find_interest : ℕ → List AdopterInterest → Option AdopterInterest
find_interest i [] = none
find_interest i (x ∷ xs) = if x.id == i then some x else find_interest i xs

abbrev pub find_contact : ℕ → List Contact → Option Contact
find_contact i [] = none
find_contact i (c ∷ cs) = if c.id == i then some c else find_contact i cs

-- `UPDATE … WHERE id = …` on a table with that primary key.
abbrev pub update_match : ℕ → (Match → Match) → List Match → List Match
update_match i f [] = []
update_match i f (m ∷ ms) = if m.id == i then f m ∷ ms else m ∷ update_match i f ms

abbrev pub update_org :
    ℕ → (FacilitatingOrg → FacilitatingOrg) → List FacilitatingOrg → List FacilitatingOrg
update_org i f [] = []
update_org i f (o ∷ os) = if o.id == i then f o ∷ os else o ∷ update_org i f os
