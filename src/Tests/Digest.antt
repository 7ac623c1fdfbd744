-- ===== src/Tests/Digest.antt =====
-- A digest for one staff member, and a facilitator of two organisations.
use jp_adopt_core.Prelude.{
  ℕ, ◌+◌, ◌/◌, ◌≡◌, refl, Bool, String, true, false, not, none, some, [], ◌∷◌, ◌==◌, if◌then◌else◌,
  map, length,
}
use jp_adopt_core.Models.{Contact}
use jp_adopt_core.Text.{Text, codes}
use jp_adopt_core.Matching.Rows.{FacilitatingOrg, AdopterInterest, undecided, recommended}
use jp_adopt_core.Digest.Rows.{StampedMatch, DigestRecipientPlan, Tables}
use jp_adopt_core.Digest.Plans.{
  load_matches_in_window, staff_rows, staff_recipients, org_addresses, add_org, add_orgs,
  build_digest_for_window,
}
use jp_adopt_core.Digest.Window.{Calendar, eastern_offset_hours}
use jp_adopt_core.Digest.Run.{digest_already_sent, run_digest}
use jp_adopt_core.Digest.Again.{second_run_mails_all_or_none}

abbrev person : ℕ → String → Text → Contact
person i sub email = record {
  id = i;
  party_kind = "facilitator";
  display_name = sub;
  adopter_status = none;
  facilitator_status = none;
  version = 1;
  b2c_subject_id = some sub;
  email_normalized = some email;
  source_system = none;
  source_id = none;
  origin = none;
  newsletter_opt_in = false;
  country_code = none;
  language_codes = [];
  created_at = 0;
  updated_at = 0;
}

abbrev org : ℕ → FacilitatingOrg
org i = record {
  id = i;
  name = "org";
  country_code = none;
  language_codes = [];
  capacity_total = 5;
  capacity_committed = 0;
  is_triage_org = false;
  last_assigned_at = none;
  active = true;
}

abbrev interest : AdopterInterest
interest = record {
  id = 30;
  contact_id = 1;
  people_id3 = none;
  commitment_level = none;
  notes = none;
  commitment_types = none;
  engagement_status = none;
  facilitation_services = none;
  network_services = none;
}

abbrev stamped : ℕ → ℕ → StampedMatch
stamped i o = record { row = undecided i 30 o recommended; recommended_at = 50 + i }

abbrev tables : Tables
tables = record {
  matches = stamped 1 10 ∷ stamped 2 20 ∷ [];
  interests = interest ∷ [];
  contacts = person 1 "s1" (codes "f@x") ∷ [];
  orgs = org 10 ∷ org 20 ∷ [];
  memberships = ("s1", 10) ∷ ("s1", 20) ∷ [];
  roles = ("s2", "staff_admin") ∷ [];
  profiles =
      record {
        b2c_subject_id = "s2";
        email_normalized = codes "a@x";
        digest_opt_in = true;
        is_active = true;
      }
      ∷ [];
  runs = [];
  recipients = [];
}

-- The member of both organisations is told of the match of the first alone.
plan_sizes :
    map (λ (p : DigestRecipientPlan). length p.matches) (build_digest_for_window tables 0 100)
    ≡ 2 ∷ 1 ∷ []
unfolding build_digest_for_window load_matches_in_window staff_rows staff_recipients org_addresses
    add_org add_orgs
plan_sizes = refl

unsent : digest_already_sent 0 tables.runs ≡ false
unfolding digest_already_sent
unsent = refl

-- One address fails.
abbrev deliver : DigestRecipientPlan → Bool
deliver p = not (length p.matches == 1)

second_run_mails_all_or_none_example :
    let (r, t1) = run_digest 1 0 100 deliver tables in
    (run_digest 2 0 100 deliver t1).0.tried ≡ (if r.failed_count == 0 then [] else r.tried)
second_run_mails_all_or_none_example =
    second_run_mails_all_or_none 1 2 0 100 deliver deliver tables unsent

-- The clocks go back between day 5 and day 6 of a calendar whose months begin with the first day.
abbrev november : Calendar
november = record { month = λ now. 11; day = λ now. now / 86400 + 1 }

-- Instants on the two days, at 9:30 on the wall of the first.
abbrev before_change : ℕ
before_change = 480600

abbrev after_change : ℕ
after_change = 569400

offsets :
    (eastern_offset_hours november before_change ≡ 4)
    × (eastern_offset_hours november after_change ≡ 5)
unfolding eastern_offset_hours
offsets = (refl, refl)
