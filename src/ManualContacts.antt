-- ===== src/ManualContacts.antt =====
-- A contact that staff adds by hand: `create_manual_contact` of routers/manual_contacts.py, over the
-- store of Decide.
pub mod Laws
use jp_adopt_core.Prelude.{
  ℕ, suc, String, Bool, true, false, not, Option, none, some, List, [], ◌∷◌, ◌++◌, if◌then◌else◌,
  ◌=ₛ◌, ◌&&◌, in_texts, map,
}
use jp_adopt_core.Models.{Contact}
use jp_adopt_core.Text.{Text, Unicode}
use jp_adopt_core.Outbox.{Payload, manual_payload, Session, emit_outbox}
use jp_adopt_core.Http.{Handler, ◌>>=◌, ◌>>◌, pure, raise, raise_unless, http_error, gets}
use jp_adopt_core.Magic.Rows.{normalize_email}
use jp_adopt_core.Matching.Rows.{FacilitatingOrg, AdopterInterest, Match, undecided, recommended}
use jp_adopt_core.Matching.Process.{Tables, find_open}
use jp_adopt_core.Decide.Rows.{Store, Actor, has_any, find_org}
use jp_adopt_core.Intake.Contacts.{
  find_by_email, write_contact, or_text, initial, initial_facilitator,
}
use jp_adopt_core.Intake.Process.{insert_code}

-- `ManualContactCreate`; the party is an adopter or a facilitator.
pub record ManualContactCreate : Type 0 where
  pub display_name : String
  pub email : Text
  pub is_adopter : Bool
  pub origin : Option String
  pub country_code : Option String
  pub language_codes : List String
  pub newsletter_opt_in : Bool
  pub fpg_people_id3s : List String
  pub facilitator_org_id : Option ℕ
  pub notes : Option String

-- `ManualContactResponse`
pub record ManualContactResponse : Type 0 where
  pub contact_id : ℕ
  pub interest_ids : List ℕ
  pub match_id : Option ℕ
  pub contact_status : Option String
  pub created : Bool

-- What `uuid4` and the clock return.
pub record Fresh : Type 0 where
  pub now : ℕ
  pub contact_id : ℕ
  pub interest_id : ℕ → ℕ
  pub match_id : ℕ
  pub event_id : ℕ

abbrev pub staff_roles : List String
staff_roles = "staff_admin" ∷ "adoption_manager" ∷ []

-- The cleaning of the codes: stripped, not empty, each once; `seen` are those before.
unfoldable pub clean_codes : (String → String) → List String → List String → List String
clean_codes strip seen [] = []
clean_codes strip seen (c ∷ cs) =
    let keep = clean_codes strip (strip c ∷ seen) cs in
    let skip = clean_codes strip seen cs in
    if not (strip c =ₛ "") && not (in_texts (strip c) seen) then strip c ∷ keep else skip

-- `sorted(set(…) - set(found))`
unfoldable pub missing_codes : List String → List String → List String
missing_codes fpgs [] = []
missing_codes fpgs (c ∷ cs) =
    let rest = missing_codes fpgs cs in if in_texts c fpgs then rest else insert_code c rest

abbrev pub is_none : {A : Type 0} → List A → Bool
is_none [] = true
is_none (x ∷ xs) = false

abbrev pub kind_of : Bool → String
kind_of is_adopter = if is_adopter then "adopter" else "facilitator"

abbrev pub initial_adopter : ManualContactCreate → List String → Option String
initial_adopter body cs =
    if body.is_adopter && is_none cs
    then some "potential_adopter"
    else initial (kind_of body.is_adopter)

abbrev pub new_contact : Fresh → Text → ManualContactCreate → List String → Contact
new_contact fresh email body cs = record {
  id = fresh.contact_id;
  party_kind = kind_of body.is_adopter;
  display_name = body.display_name;
  adopter_status = initial_adopter body cs;
  facilitator_status = initial_facilitator (kind_of body.is_adopter);
  version = 1;
  b2c_subject_id = none;
  email_normalized = some email;
  source_system = none;
  source_id = none;
  origin = some (or_text body.origin "manual_entry");
  newsletter_opt_in = body.newsletter_opt_in;
  country_code = body.country_code;
  language_codes = body.language_codes;
  created_at = fresh.now;
  updated_at = fresh.now;
}

abbrev pub new_interest : Fresh → ℕ → ℕ → Option String → Option String → AdopterInterest
new_interest fresh k contact_id people_id3 notes = record {
  id = fresh.interest_id k;
  contact_id = contact_id;
  people_id3 = people_id3;
  commitment_level = none;
  notes = notes;
  commitment_types = none;
  engagement_status = none;
  facilitation_services = none;
  network_services = none;
}

abbrev pub new_interests :
    Fresh → ℕ → ℕ → List (Option String) → Option String → List AdopterInterest
new_interests fresh k contact_id [] notes = []
new_interests fresh k contact_id (c ∷ cs) notes =
    new_interest fresh k contact_id c notes ∷ new_interests fresh (suc k) contact_id cs notes

-- `body.fpg_people_id3s or [None]`
abbrev pub selections : List String → List (Option String)
selections [] = none ∷ []
selections (c ∷ cs) = map some (c ∷ cs)

abbrev pub event_manual_created : String
event_manual_created = "jp.adopt.v1.contact.manual_created"

abbrev pub status_of : ManualContactCreate → Contact → Option String
status_of body c = if body.is_adopter then c.adopter_status else c.facilitator_status

module _ {F : Type 0} (u : Unicode) (strip : String → String) (fpgs : List String)
    (fresh : Fresh) where
  abbrev pub modify : (Store F → Store F) → Handler (Store F) (Unit {0})
  modify f s = pure tt (f s)

  -- The organisation, if one is named.
  abbrev pub active_org : FacilitatingOrg → Handler (Store F) (Option FacilitatingOrg)
  active_org o = raise_unless o.active (http_error 409 "facilitator_inactive") >> pure (some o)

  abbrev pub found_org : Option FacilitatingOrg → Handler (Store F) (Option FacilitatingOrg)
  found_org none = raise (http_error 404 "facilitator_org_id not found")
  found_org (some o) = active_org o

  abbrev pub check_org : Option ℕ → Handler (Store F) (Option FacilitatingOrg)
  check_org none s = pure none s
  check_org (some i) s = found_org (find_org i s.tables.orgs) s

  abbrev pub put_contacts : List Contact → Store F → Store F
  put_contacts cs s = record s { session = record s.session { contacts = cs } }

  -- The contact of the address, or a new one.
  abbrev pub reuse : ManualContactCreate → Contact → Handler (Store F) (Contact × Bool)
  reuse body c =
      if body.newsletter_opt_in && not c.newsletter_opt_in
      then modify (λ s.
        put_contacts
          (write_contact fresh.now (record c { newsletter_opt_in = true }) s.session.contacts) s)
        >> pure (record c { newsletter_opt_in = true }, false)
      else pure (c, false)

  abbrev pub resolve_from :
      ManualContactCreate → Contact → Option Contact → Handler (Store F) (Contact × Bool)
  resolve_from body c none =
      modify (λ s. put_contacts (s.session.contacts ++ c ∷ []) s) >> pure (c, true)
  resolve_from body c (some existing) = reuse body existing

  abbrev pub resolve : ManualContactCreate → List String → Handler (Store F) (Contact × Bool)
  resolve body cs s =
      let email = normalize_email u body.email in
      resolve_from body (new_contact fresh email body cs) (find_by_email email s.session.contacts) s

  abbrev pub add_interests : List AdopterInterest → Handler (Store F) (List ℕ)
  add_interests xs =
      modify (λ s. record s { tables = record s.tables { interests = s.tables.interests ++ xs } })
      >> pure (map (λ (x : AdopterInterest). x.id) xs)

  -- A row for each code of an adopter, none for a facilitator.
  abbrev pub create_interests : ManualContactCreate → List String → ℕ → Handler (Store F) (List ℕ)
  create_interests body cs contact_id =
      add_interests (
        if body.is_adopter then new_interests fresh 0 contact_id (selections cs) body.notes else [])

  -- The savepoint: the conflict with an open match gives that one's id.
  abbrev pub insert_match : ℕ → ℕ → Option Match → Handler (Store F) (Option ℕ)
  insert_match interest_id org_id (some open_) = pure (some open_.id)
  insert_match interest_id org_id none =
      modify (λ s. record s {
        tables = record s.tables {
          matches =
              s.tables.matches ++ undecided fresh.match_id interest_id org_id recommended ∷ [];
        };
      })
      >> pure (some fresh.match_id)

  abbrev pub assign : Option FacilitatingOrg → List ℕ → Handler (Store F) (Option ℕ)
  assign none ids s = pure none s
  assign (some o) [] s = pure none s
  assign (some o) (i ∷ ids) s = insert_match i o.id (find_open i s.tables.matches) s

  abbrev pub emit : Payload → Handler (Store F) (Unit {0})
  emit payload = modify λ s. record s {
    session = (emit_outbox event_manual_created payload fresh.event_id s.session).1;
  }

  -- The event, and the answer.
  abbrev pub report :
      Actor
      → ManualContactCreate
      → Contact × Bool
      → List ℕ
      → Option ℕ
      → Handler (Store F) ManualContactResponse
  report actor body (contact, created) ids match_id = do
    emit (
        manual_payload event_manual_created "jp.adopt.v1" contact.id ids match_id
          (kind_of body.is_adopter) contact.origin contact.newsletter_opt_in actor.sub fresh.now)
    pure (record {
      contact_id = contact.id;
      interest_ids = ids;
      match_id = match_id;
      contact_status = status_of body contact;
      created = created;
    })

  abbrev pub write_match :
      Actor
      → ManualContactCreate
      → Option FacilitatingOrg
      → Contact × Bool
      → List ℕ
      → Handler (Store F) ManualContactResponse
  write_match actor body org r ids = assign org ids >>= report actor body r ids

  abbrev pub write_interests :
      Actor
      → ManualContactCreate
      → List String
      → Option FacilitatingOrg
      → Contact × Bool
      → Handler (Store F) ManualContactResponse
  write_interests actor body cs org r =
      create_interests body cs r.0.id >>= write_match actor body org r

  -- What is written once the request has been checked.
  abbrev pub write :
      Actor
      → ManualContactCreate
      → List String
      → Option FacilitatingOrg
      → Handler (Store F) ManualContactResponse
  write actor body cs org = resolve body cs >>= write_interests actor body cs org

  -- `create_manual_contact`.
  unfoldable pub create_manual_contact :
      Actor → ManualContactCreate → Handler (Store F) ManualContactResponse
  unfolding clean_codes missing_codes
  create_manual_contact actor body =
      let cs = clean_codes strip [] body.fpg_people_id3s in
      raise_unless (has_any actor.roles staff_roles) (http_error 403 "role_required")
      >> (raise_unless (is_none (missing_codes fpgs cs)) (http_error 422 "unknown_fpg_people_id3")
          >> (check_org body.facilitator_org_id >>= write actor body cs))
