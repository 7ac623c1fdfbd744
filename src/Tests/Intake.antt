-- ===== src/Tests/Intake.antt =====
-- Submissions at a concrete desk.
use jp_adopt_core.Prelude.{
  ℕ, ◌+◌, ◌==◌, ◌++◌, ◌≡◌, refl, true, false, none, some, List, [], ◌∷◌, inl,
}
use jp_adopt_core.Models.{Contact, FpgInterest}
use jp_adopt_core.Text.{Unicode, codes, strip}
use jp_adopt_core.Outbox.{emit_outbox}
use jp_adopt_core.Magic.Rows.{normalize_email}
use jp_adopt_core.Intake.Rows.{
  Desk, Submission, adoption, Fresh, Settings, Codec, success, Response, err,
}
use jp_adopt_core.Intake.Email.{email_sanity}
use jp_adopt_core.Intake.Contacts.{find_by_email, resolve_contact, apply_profile, write_consents}
use jp_adopt_core.Intake.Process.{
  unknown_people_id3s, create_interests, process_adoption_payload, event_submission_received,
}
use jp_adopt_core.Intake.Access.{authenticate}
use jp_adopt_core.Intake.Request.{Request, Ticket, reply, admit, handle, no_import}
use jp_adopt_core.Intake.Returns.{Returns}
use jp_adopt_core.Intake.Outcome.{event_types}
use jp_adopt_core.Intake.Found.{Answered, found, adoption_answers_alike}
use jp_adopt_core.Intake.Refused.{refusal, http_status, unknown_code_tells, refused_is_not_welcomed}
use jp_adopt_core.Intake.Served.{serve}
use jp_adopt_core.Intake.Replay.{replay_same}

abbrev plain : Unicode
plain = record { is_space = λ c. c == 32; lower = λ t. t; casefold = λ t. t }

abbrev cfg : Settings
cfg = record {
  unicode = plain;
  strip = λ s. s;
  repr_list = λ ss. "…";
  concat = λ s t. t;
  sha256 = λ t. t;
  is_production = true;
  intake_api_keys_list = codes "k1" ∷ [];
  intake_default_origin = "website";
}

abbrev group : FpgInterest
group = record {
  people_id3 = "AA01";
  commitment_level = none;
  notes = none;
  commitment_types = none;
  engagement_status = none;
  facilitation_services = none;
  network_services = none;
}

abbrev form : List FpgInterest → Submission
form sels = record {
  email = codes "ab@c.de ";
  display_name = "Ab";
  origin = none;
  newsletter_opt_in = true;
  country_code = none;
  language_codes = [];
  profile = some (("website", "ab.de") ∷ []);
  consents = [];
  fpg_selections = sels;
  organization_name = none;
}

abbrev fresh : ℕ → Fresh
fresh n = record {
  now = n;
  request_id = n + 1;
  contact_id = n + 2;
  profile_id = n + 3;
  interest_id = λ k. n + 10 + k;
  consent_id = λ k. n + 20 + k;
  submission_id = n + 4;
  received_event_id = n + 5;
  submitted_event_id = n + 6;
}

abbrev enemy : Contact
enemy = record {
  id = 7;
  party_kind = "adopter";
  display_name = "Ab";
  adopter_status = some "do_not_engage";
  facilitator_status = none;
  version = 1;
  b2c_subject_id = none;
  email_normalized = some (codes "ab@c.de");
  source_system = none;
  source_id = none;
  origin = none;
  newsletter_opt_in = false;
  country_code = none;
  language_codes = [];
  created_at = 0;
  updated_at = 0;
}

abbrev desk : List Contact → Desk
desk cs = record {
  session = record { contacts = cs; outbox = []; audits = []; active = none };
  profiles = [];
  consents = [];
  interests = [];
  fpgs = "AA01" ∷ [];
  blocked = [];
  idempotency = [];
  api_keys = [];
}

abbrev codec : Codec ℕ
codec = record { loads = λ raw. some 0; validate = λ domain j. inl (form (group ∷ [])) }

abbrev request : Request
request = record {
  domain = adoption;
  caller = record { authorization = some (codes "bearer k1"); host = none; user_agent = none };
  idempotency_key = some (codes "i1");
  raw = codes "{}";
}

abbrev ticket : Ticket
ticket = record { api_key_id = codes "k1"; key = codes "i1"; payload = form (group ∷ []) }

abbrev created : Response
created = record { status_code = 201; body = success 104 101 102 (110 ∷ []) }

admit_ok : admit codec cfg request (fresh 100) (desk []) ≡ inl ticket
unfolding admit authenticate strip
admit_ok = refl

handle_ok : (handle codec cfg request (fresh 100) (desk [])).0 ≡ reply created
unfolding handle authenticate strip process_adoption_payload normalize_email email_sanity
    resolve_contact apply_profile write_consents create_interests unknown_people_id3s emit_outbox
handle_ok = refl

replay_same_example :
    let d' =
      serve codec cfg
        ((request, fresh 200) ∷ [])
        (handle codec cfg request (fresh 100) (desk [])).1 in
    handle codec cfg request (fresh 300) d' ≡ (reply created, d')
replay_same_example =
    replay_same codec cfg request (fresh 100) (fresh 300) (desk []) ticket created
      ((request, fresh 200) ∷ []) admit_ok refl handle_ok

sane :
    (sels : List FpgInterest) → email_sanity plain (normalize_email plain (form sels).email) ≡ true
unfolding email_sanity normalize_email
sane sels = refl

there : find_by_email (normalize_email plain (form []).email) (enemy ∷ []) ≡ some enemy
unfolding normalize_email
there = refl

absent : find_by_email (normalize_email plain (form []).email) [] ≡ none
absent = refl

unknown : unknown_people_id3s (λ s. s) [] (group ∷ []) ≡ "AA01" ∷ []
unfolding unknown_people_id3s
unknown = refl

adoption_answers_alike_example :
    Returns
      (Answered cfg
        (no_import 1)
        (fresh 100)
        (form (group ∷ []))
        (desk (enemy ∷ []))
        (found cfg (no_import 1) (fresh 100) (form (group ∷ [])) (desk (enemy ∷ []))))
      (process_adoption_payload cfg
        (no_import 1)
        (fresh 100)
        (form (group ∷ []))
        (desk (enemy ∷ [])))
adoption_answers_alike_example =
    adoption_answers_alike cfg (no_import 1) (fresh 100) (form (group ∷ [])) (desk (enemy ∷ []))
      refl refl ((refl, refl), tt) (sane (group ∷ []))

-- No people group is known.
abbrev bare : List Contact → Desk
bare cs = record (desk cs) { fpgs = [] }

unknown_code_tells_example :
    http_status (
      process_adoption_payload cfg
        (no_import 1)
        (fresh 100)
        (form (group ∷ []))
        (bare (enemy ∷ [])))
    ≡ 201
unknown_code_tells_example =
    unknown_code_tells cfg (no_import 1) (fresh 100) (form (group ∷ [])) "AA01" []
      (bare (enemy ∷ [])) unknown (sane (group ∷ [])) enemy there

refused_is_not_welcomed_example :
    let (r, d1) =
      process_adoption_payload cfg (no_import 1) (fresh 100) (form (group ∷ [])) (bare []) in
    (r ≡ err (refusal cfg ("AA01" ∷ [])))
    × Returns
        (λ _ d2. event_types d2 ≡ event_types d1 ++ event_submission_received ∷ [])
        (process_adoption_payload cfg (no_import 2) (fresh 200) (form []) d1)
refused_is_not_welcomed_example =
    refused_is_not_welcomed cfg (no_import 1) (fresh 100) (form (group ∷ [])) "AA01" [] (bare [])
      unknown (sane (group ∷ [])) (no_import 2) (fresh 200) (form []) refl refl refl absent refl tt
