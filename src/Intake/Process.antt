-- ===== src/Intake/Process.antt =====
-- What a submission does to the tables: `process_adoption_payload` and
-- `process_facilitation_payload` of routers/intake.py.
use jp_adopt_core.Prelude.{
  ℕ, suc, String, Bool, true, false, Option, none, some, List, [], ◌∷◌, ◌++◌, if◌then◌else◌, ◌=ₛ◌,
  in_texts, map,
}
use jp_adopt_core.Models.{Contact, FpgInterest}
use jp_adopt_core.Text.{Text, text_lt, codes}
use jp_adopt_core.Outbox.{Payload, submission_payload, submitted_payload, emit_outbox}
use jp_adopt_core.Magic.Rows.{normalize_email}
use jp_adopt_core.Matching.Rows.{AdopterInterest}
use jp_adopt_core.Intake.Rows.{
  Submission, Import, Fresh, Settings, integrity_error, invalid, escaped, Action, ◌>>=◌, ◌>>◌, pure,
  raise, modify,
}
use jp_adopt_core.Intake.Email.{email_sanity}
use jp_adopt_core.Intake.Contacts.{
  Party, adopter, facilitator, resolve_contact, save_contact, apply_profile, write_consents,
}

-- `IntakeOutcome`
pub record IntakeOutcome : Type 0 where
  pub contact_id : ℕ
  pub created : Bool
  pub interest_ids : List ℕ
  pub was_blocked : Bool
  pub submission_id : ℕ

-- `sorted(set(…))`, by insertion.
abbrev pub insert_code : String → List String → List String
insert_code c [] = c ∷ []
insert_code c (d ∷ ds) =
    if c =ₛ d
    then d ∷ ds
    else if text_lt (codes c) (codes d)
    then c ∷ d ∷ ds
    else d ∷ insert_code c ds

-- The codes of the selections that the table of people groups lacks, each once, in order.
unfoldable pub unknown_people_id3s :
    (String → String) → List String → List FpgInterest → List String
unknown_people_id3s strip fpgs [] = []
unknown_people_id3s strip fpgs (sel ∷ sels) =
    if in_texts (strip sel.people_id3) fpgs
    then unknown_people_id3s strip fpgs sels
    else insert_code (strip sel.people_id3) (unknown_people_id3s strip fpgs sels)

abbrev pub new_interest : ℕ → ℕ → FpgInterest → AdopterInterest
new_interest interest_id contact_id sel = record {
  id = interest_id;
  contact_id = contact_id;
  people_id3 = some sel.people_id3;
  commitment_level = sel.commitment_level;
  notes = sel.notes;
  commitment_types = sel.commitment_types;
  engagement_status = sel.engagement_status;
  facilitation_services = sel.facilitation_services;
  network_services = sel.network_services;
}

abbrev pub no_fpg : ℕ → ℕ → AdopterInterest
no_fpg interest_id contact_id = record {
  id = interest_id;
  contact_id = contact_id;
  people_id3 = none;
  commitment_level = none;
  notes = none;
  commitment_types = none;
  engagement_status = none;
  facilitation_services = none;
  network_services = none;
}

abbrev pub add_interest : AdopterInterest → Action (Unit {0})
add_interest x = modify λ d. record d { interests = d.interests ++ x ∷ [] }

-- One interest, and its flush, with the foreign key of the people group.
abbrev pub create_interest : AdopterInterest → String → Action (Unit {0})
create_interest x code d =
    if in_texts code d.fpgs then add_interest x d else raise (escaped integrity_error) d

-- `_create_interests`, from the `k`-th on.
unfoldable pub create_interests : Fresh → ℕ → ℕ → List FpgInterest → Action (List ℕ)
create_interests fresh contact_id k [] = pure []
create_interests fresh contact_id k (sel ∷ sels) = do
  create_interest (new_interest (fresh.interest_id k) contact_id sel) sel.people_id3
  rest ← create_interests fresh contact_id (suc k) sels
  pure (fresh.interest_id k ∷ rest)

abbrev pub message_of : Settings → List String → Option String
message_of cfg missing = some (cfg.concat "Unknown people_id3 codes: " (cfg.repr_list missing))

abbrev pub raise_missing : Settings → List String → Action (Unit {0})
raise_missing cfg [] = pure tt
raise_missing cfg (c ∷ cs) = raise (
    invalid (message_of cfg (c ∷ cs))
      (("fpg_selections", map (cfg.concat "Unknown people_id3: ") (c ∷ cs)) ∷ []))

-- The interests of selections that all are known.
abbrev pub select_interests : Settings → Fresh → ℕ → List FpgInterest → Action (List ℕ)
select_interests cfg fresh contact_id sels d =
    (do
      raise_missing cfg (unknown_people_id3s cfg.strip d.fpgs sels)
      create_interests fresh contact_id 0 sels)
      d

-- The ids of a blocked submission's answer, one for each selection, from the `k`-th on.
abbrev pub fabricate : {A : Type 0} → Fresh → ℕ → List A → List ℕ
fabricate fresh k [] = []
fabricate fresh k (x ∷ xs) = fresh.interest_id k ∷ fabricate fresh (suc k) xs

abbrev pub status_is : String → Option String → Bool
status_is s none = false
status_is s (some t) = t =ₛ s

-- The log of a blocked submission, and an answer in the shape of an accepted one.
abbrev pub block : Party → Fresh → Text → Contact → Bool → List ℕ → Action IntakeOutcome
block party fresh email contact created ids = do
  modify λ d. record d {
    blocked =
        d.blocked
        ++ record {
          contact_id = contact.id;
          email_normalized = email;
          reason = "do_not_engage";
          source = party.source;
          party_kind = party.kind;
          received_at = fresh.now;
        }
          ∷ [];
  }
  pure (record {
    contact_id = contact.id;
    created = created;
    interest_ids = ids;
    was_blocked = true;
    submission_id = fresh.submission_id;
  })

abbrev pub emit : String → Payload → ℕ → Action (Unit {0})
emit event_type payload event_id =
    modify λ d. record d { session = (emit_outbox event_type payload event_id d.session).1 }

abbrev pub event_submission_received : String
event_submission_received = "jp.adopt.v1.submission.received"

abbrev pub event_contact_submitted : String
event_contact_submitted = "jp.adopt.v1.contact.submitted"

-- The consents and the event of the submission.
abbrev pub report :
    Party
    → Option ℕ
    → Fresh
    → Submission
    → Option String
    → Contact
    → Bool
    → List ℕ
    → Action IntakeOutcome
report party request_id fresh p organization_name contact created ids = do
  write_consents fresh contact.id p.consents
  emit event_submission_received
      (submission_payload event_submission_received "jp.adopt.v2" fresh.submission_id request_id
        contact.id created party.kind organization_name ids p.fpg_selections contact.origin
        contact.newsletter_opt_in)
      fresh.received_event_id
  pure (record {
    contact_id = contact.id;
    created = created;
    interest_ids = ids;
    was_blocked = false;
    submission_id = fresh.submission_id;
  })

-- The profile, and the rest of an accepted submission.
abbrev pub finish :
    Party
    → Option ℕ
    → Fresh
    → Submission
    → Option String
    → Contact
    → Bool
    → List ℕ
    → Action IntakeOutcome
finish party request_id fresh p organization_name contact created ids =
    apply_profile fresh contact.id p.profile
    >> report party request_id fresh p organization_name contact created ids

-- The welcome: the event of a new adopter.
abbrev pub announce : Fresh → Contact → Bool → Action (Unit {0})
announce fresh contact false = pure tt
announce fresh contact true =
    emit event_contact_submitted
      (submitted_payload event_contact_submitted contact.id "adopter" contact.adopter_status)
      fresh.submitted_event_id

abbrev pub raise_invalid_email : {A : Type 0} → Action A
raise_invalid_email = raise (invalid none (("email", "Email failed sanity check" ∷ []) ∷ []))

-- The ids of the answer to a blocked adopter: one where nothing is selected.
abbrev pub one_at_least : Fresh → List FpgInterest → List ℕ
one_at_least fresh [] = fresh.interest_id 0 ∷ []
one_at_least fresh (sel ∷ sels) = fabricate fresh 0 (sel ∷ sels)

-- The interests of an adopter, and the contact: without a selection it becomes `potential_adopter`.
abbrev pub adopter_interests :
    Settings → Fresh → Contact → List FpgInterest → Action (Contact × List ℕ)
adopter_interests cfg fresh contact [] = do
  let contact' = record contact { adopter_status = some "potential_adopter" }
  save_contact fresh.now contact'
  add_interest (no_fpg (fresh.interest_id 0) contact.id)
  pure (contact', fresh.interest_id 0 ∷ [])
adopter_interests cfg fresh contact (sel ∷ sels) = do
  ids ← select_interests cfg fresh contact.id (sel ∷ sels)
  pure (contact, ids)

abbrev pub accept_adopter :
    Settings → Import → Fresh → Submission → Contact → Bool → Action IntakeOutcome
accept_adopter cfg im fresh p contact created = do
  (contact', ids) ← adopter_interests cfg fresh contact p.fpg_selections
  outcome ← finish adopter im.request_id fresh p none contact' created ids
  announce fresh contact' created
  pure outcome

abbrev pub accept_facilitator :
    Settings → Import → Fresh → Submission → Contact → Bool → Action IntakeOutcome
accept_facilitator cfg im fresh p contact created = do
  ids ← select_interests cfg fresh contact.id p.fpg_selections
  finish facilitator im.request_id fresh p p.organization_name contact created ids

abbrev pub adopt :
    Settings → Import → Fresh → Text → Submission → Contact × Bool → Action IntakeOutcome
adopt cfg im fresh email p (contact, created) =
    if status_is "do_not_engage" contact.adopter_status
    then block adopter fresh email contact created (one_at_least fresh p.fpg_selections)
    else accept_adopter cfg im fresh p contact created

abbrev pub facilitate :
    Settings → Import → Fresh → Text → Submission → Contact × Bool → Action IntakeOutcome
facilitate cfg im fresh email p (contact, created) =
    if status_is "do_not_engage" contact.facilitator_status
    then block facilitator fresh email contact created (fabricate fresh 0 p.fpg_selections)
    else accept_facilitator cfg im fresh p contact created

-- `process_adoption_payload`
unfoldable pub process_adoption_payload :
    Settings → Import → Fresh → Submission → Action IntakeOutcome
process_adoption_payload cfg im fresh p =
    let email = normalize_email cfg.unicode p.email in
    if email_sanity cfg.unicode email
    then resolve_contact cfg adopter im fresh email p >>= adopt cfg im fresh email p
    else raise_invalid_email

-- `process_facilitation_payload`
unfoldable pub process_facilitation_payload :
    Settings → Import → Fresh → Submission → Action IntakeOutcome
process_facilitation_payload cfg im fresh p =
    let email = normalize_email cfg.unicode p.email in
    if email_sanity cfg.unicode email
    then resolve_contact cfg facilitator im fresh email p >>= facilitate cfg im fresh email p
    else raise_invalid_email
