-- ===== src/Intake/Contacts.antt =====
-- The contact of a submission, its profile and its consents: `_resolve_contact`, `_apply_profile` and
-- `_write_consents` of routers/intake.py.
use jp_adopt_core.Prelude.{
  ℕ, suc, String, Bool, true, false, not, Option, none, some, List, [], ◌∷◌, ◌++◌, if◌then◌else◌,
  ◌==◌, ◌=ₛ◌, ◌&&◌, ◌||◌,
}
use jp_adopt_core.Models.{Contact}
use jp_adopt_core.Text.{Text, text_eq}
use jp_adopt_core.Intake.Rows.{
  ConsentIn, Consent, ContactProfile, Submission, Import, Fresh, Settings, integrity_error, escaped,
  Action, ◌>>◌, pure, raise, modify,
}

-- In which the two domains differ: the party, the status that blocks it, and the texts.
pub record Party : Type 0 where
  pub kind : String
  pub status : Contact → Option String
  pub source : String

abbrev pub adopter : Party
adopter = record { kind = "adopter"; status = λ c. c.adopter_status; source = "adoption_intake" }

abbrev pub facilitator : Party
facilitator = record {
  kind = "facilitator";
  status = λ c. c.facilitator_status;
  source = "facilitation_intake";
}

abbrev pub or_else : {A : Type 0} → Option A → A → A
or_else none a = a
or_else (some b) a = b

-- `a or b` on texts: an empty text counts as missing.
abbrev pub or_text : Option String → String → String
or_text none b = b
or_text (some a) b = if a =ₛ "" then b else a

abbrev pub has_email : Text → Option Text → Bool
has_email email none = false
has_email email (some e) = text_eq e email

-- `select(Contact).where(Contact.email_normalized == …)`, on a column with a unique index.
abbrev pub find_by_email : Text → List Contact → Option Contact
find_by_email email [] = none
find_by_email email (c ∷ cs) =
    if has_email email c.email_normalized then some c else find_by_email email cs

-- The flush of a changed object; `updated_at` is set by `onupdate`.
abbrev pub write_contact : ℕ → Contact → List Contact → List Contact
write_contact now c [] = []
write_contact now c (x ∷ xs) =
    if x.id == c.id then record c { updated_at = now } ∷ xs else x ∷ write_contact now c xs

abbrev pub save_contact : ℕ → Contact → Action (Unit {0})
save_contact now c = modify λ d. record d {
  session = record d.session { contacts = write_contact now c d.session.contacts };
}

abbrev pub text_is : Option String → Option String → Bool
text_is (some a) (some b) = a =ₛ b
text_is _ _ = false

-- `uq_contacts_source_system_source_id`
abbrev pub has_source : Contact → List Contact → Bool
has_source c [] = false
has_source c (x ∷ xs) =
    (text_is x.source_system c.source_system && text_is x.source_id c.source_id) || has_source c xs

abbrev pub initial : String → Option String
initial kind = if kind =ₛ "adopter" then some "new" else none

abbrev pub initial_facilitator : String → Option String
initial_facilitator kind = if kind =ₛ "facilitator" then some "new" else none

abbrev pub new_contact : Settings → Party → Import → Fresh → Text → Submission → Contact
new_contact cfg party im fresh email p = record {
  id = fresh.contact_id;
  party_kind = party.kind;
  display_name = p.display_name;
  adopter_status = initial party.kind;
  facilitator_status = initial_facilitator party.kind;
  version = 1;
  b2c_subject_id = none;
  email_normalized = some email;
  source_system = im.source_system;
  source_id = im.source_id;
  origin = some (or_text p.origin cfg.intake_default_origin);
  newsletter_opt_in = p.newsletter_opt_in;
  country_code = p.country_code;
  language_codes = p.language_codes;
  created_at = or_else im.override_created_at fresh.now;
  updated_at = fresh.now;
}

-- `session.add` and the flush, with the unique index of the sources.
abbrev pub insert_contact : Contact → Action (Unit {0})
insert_contact c d =
    if has_source c d.session.contacts
    then raise (escaped integrity_error) d
    else modify
        (λ e. record e { session = record e.session { contacts = e.session.contacts ++ c ∷ [] } }) d

-- The opt-in of an existing contact is only ever set.
abbrev pub touch : ℕ → Bool → Contact → Action (Contact × Bool)
touch now opt_in c =
    if opt_in && not c.newsletter_opt_in
    then save_contact now (record c { newsletter_opt_in = true })
      >> pure (record c { newsletter_opt_in = true }, false)
    else pure (c, false)

abbrev pub resolve_from : ℕ → Contact → Bool → Option Contact → Action (Contact × Bool)
resolve_from now c opt_in none = insert_contact c >> pure (c, true)
resolve_from now c opt_in (some existing) = touch now opt_in existing

-- `_resolve_contact`: the contact, and whether it is new.
unfoldable pub resolve_contact :
    Settings → Party → Import → Fresh → Text → Submission → Action (Contact × Bool)
resolve_contact cfg party im fresh email p d =
    resolve_from fresh.now (new_contact cfg party im fresh email p) p.newsletter_opt_in
      (find_by_email email d.session.contacts) d

-- `setattr` for a column.
abbrev pub set_column : String → String → List (String × String) → List (String × String)
set_column name value [] = (name, value) ∷ []
set_column name value ((n, v) ∷ rest) =
    if n =ₛ name then (name, value) ∷ rest else (n, v) ∷ set_column name value rest

abbrev pub set_columns : List (String × String) → List (String × String) → List (String × String)
set_columns [] columns = columns
set_columns ((name, value) ∷ items) columns = set_columns items (set_column name value columns)

-- The profile of the contact, or a new one, with the columns set.
abbrev pub upsert_profile :
    ℕ → ℕ → List (String × String) → List ContactProfile → List ContactProfile
upsert_profile profile_id contact_id items [] =
    record { id = profile_id; contact_id = contact_id; columns = set_columns items [] } ∷ []
upsert_profile profile_id contact_id items (p ∷ ps) =
    if p.contact_id == contact_id
    then record p { columns = set_columns items p.columns } ∷ ps
    else p ∷ upsert_profile profile_id contact_id items ps

-- `_apply_profile`
unfoldable pub apply_profile : Fresh → ℕ → Option (List (String × String)) → Action (Unit {0})
apply_profile fresh contact_id none = pure tt
apply_profile fresh contact_id (some []) = pure tt
apply_profile fresh contact_id (some (item ∷ items)) = modify λ d. record d {
  profiles = upsert_profile fresh.profile_id contact_id (item ∷ items) d.profiles;
}

abbrev pub new_consents : Fresh → ℕ → ℕ → List ConsentIn → List Consent
new_consents fresh contact_id k [] = []
new_consents fresh contact_id k (c ∷ cs) =
    record { id = fresh.consent_id k; contact_id = contact_id; consent = c }
    ∷ new_consents fresh contact_id (suc k) cs

-- `_write_consents`
unfoldable pub write_consents : Fresh → ℕ → List ConsentIn → Action (Unit {0})
write_consents fresh contact_id cs =
    modify λ d. record d { consents = d.consents ++ new_consents fresh contact_id 0 cs }
