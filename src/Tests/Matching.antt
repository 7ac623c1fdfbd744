-- ===== src/Tests/Matching.antt =====
-- Matching runs on concrete organisations, with scores counted in thousandths.
use jp_adopt_core.Prelude.{
  ℕ, ◌+◌, ◌*◌, ◌/◌, ◌≤◌, ◌<◌, String, ◌≡◌, refl, true, false, none, some, List, [], ◌∷◌, arith, leb,
  All,
}
use native.Mathlib.Nat.{div-lt_iff_lt-mul, mul-le-mul_right}
use jp_adopt_core.Models.{Contact}
use jp_adopt_core.Matching.Rows.{
  undecided as unmade, MatchStatus, FacilitatingOrg, AdopterInterest, Match, sent_back,
}
use jp_adopt_core.Matching.Floats.{Floats, FloatLaws}
use jp_adopt_core.Matching.Filter.{passed, hard_filter}
use jp_adopt_core.Matching.Score.{
  capacity_headroom_score, geography_score, language_score, fpg_affinity_score, theological_score,
  default_weights, weighted_total, score,
}
use jp_adopt_core.Matching.Bounds.{AreWeights}
use jp_adopt_core.Matching.Ranking.{sort_candidates, Candidate, Scored, promote}
use jp_adopt_core.Matching.Process.{
  attempt_rows, scored_candidates, assign_triage, recommend, insert_match_with_conflict_guard,
  Tables, MatchRun, process_interest,
}
use jp_adopt_core.Matching.Run.{
  interests_of, resolve_triage_org, derive_exclusion_list, process_all, load_candidates,
  match_or_route,
}
use jp_adopt_core.Matching.OpenMatches.{Explained, match_or_route_recommends}

-- Fixed-point numbers with three digits, which satisfy the laws.
abbrev thousandths : Floats ℕ
thousandths = record {
  ratio = λ a b. a * 1000 / b;
  add = λ a b. a + b;
  mul = λ a b. a * b / 1000;
  round3 = λ a. a;
  leb = leb;
}

ratio_small : (a b : ℕ) → a ≤ b → 0 < b → a * 1000 / b < 1001
ratio_small a b h p = (div-lt_iff_lt-mul p).1 (omega arith)

product_small : (x w : ℕ) → x ≤ 1000 → x * w / 1000 < w + 1
product_small x w h = (div-lt_iff_lt-mul (omega arith)).1 (omega (arith, mul-le-mul_right w h))

thousandths-FloatLaws : FloatLaws thousandths
thousandths-FloatLaws = record {
  leb_total = λ a b. ground arith;
  leb_trans = λ a b c h k. ground arith;
  ratio_nonneg = λ a b. ground arith;
  ratio_le_one = λ a b h p. ground (arith, ratio_small a b h p);
  add_mono = λ a b c d h k. ground arith;
  mul_le = λ x w h k. ground (arith, product_small x w);
}

abbrev dora : Contact
dora = record {
  id = 3;
  party_kind = "adopter";
  display_name = "Dora";
  adopter_status = some "new";
  facilitator_status = none;
  version = 1;
  b2c_subject_id = none;
  email_normalized = none;
  source_system = none;
  source_id = none;
  origin = none;
  newsletter_opt_in = false;
  country_code = some "NL";
  language_codes = "nl" ∷ "en" ∷ [];
  created_at = 0;
  updated_at = 0;
}

abbrev org : ℕ → String → ℕ → FacilitatingOrg
org i name committed = record {
  id = i;
  name = name;
  country_code = some "NL";
  language_codes = "nl" ∷ [];
  capacity_total = 4;
  capacity_committed = committed;
  is_triage_org = false;
  last_assigned_at = none;
  active = true;
}

abbrev desk : FacilitatingOrg
desk = record (org 1 "triage desk" 0) { is_triage_org = true }

abbrev wish : AdopterInterest
wish = record {
  id = 50;
  contact_id = 3;
  people_id3 = some "AA01";
  commitment_level = none;
  notes = none;
  commitment_types = none;
  engagement_status = none;
  facilitation_services = none;
  network_services = none;
}

abbrev undecided : AdopterInterest
undecided = record {
  id = 51;
  contact_id = 3;
  people_id3 = none;
  commitment_level = none;
  notes = none;
  commitment_types = none;
  engagement_status = none;
  facilitation_services = none;
  network_services = none;
}

-- Org 12 has sent back an earlier match of the contact.
abbrev refused : Match
refused = unmade 90 50 12 sent_back

abbrev start_tables : Tables ℕ
start_tables = record {
  orgs = desk ∷ org 10 "north" 3 ∷ org 11 "south" 1 ∷ org 12 "west" 0 ∷ [];
  coverage = (10, "AA01") ∷ (11, "AA01") ∷ (12, "AA01") ∷ [];
  interests = wish ∷ undecided ∷ [];
  matches = refused ∷ [];
  attempts = [];
  next_id = 100;
}

-- A run during which other transactions do nothing.
abbrev run : MatchRun ℕ
run = record {
  floats = thousandths;
  lower = λ s. s;
  others = λ ms. ms;
  contact = dora;
  excluded = [];
  weights = default_weights thousandths;
  run_id = 70;
  triage_org_id = 0;
}

abbrev candidates : List (Candidate ℕ)
candidates =
    record {
      facilitator = org 10 "north" 3;
      score_vector = none;
      filter_reason = passed;
      covered = "AA01" ∷ [];
    }
    ∷ record {
      facilitator = org 13 "east" 4;
      score_vector = none;
      filter_reason = passed;
      covered = "AA01" ∷ [];
    }
    ∷ []

match_or_route_recommends_example :
    All
      (Explained start_tables 3 (λ m. m.status ≡ sent_back))
      (match_or_route run none start_tables).1.matches
match_or_route_recommends_example =
    match_or_route_recommends run start_tables (λ m. m.status ≡ sent_back) (λ ms h. h) (refl, tt)

abbrev scored_as : ℕ → Candidate ℕ → Scored ℕ
scored_as total c = record { candidate = c; total = total }

abbrev north : Candidate ℕ
north = record {
  facilitator = org 10 "north" 3;
  score_vector = none;
  filter_reason = passed;
  covered = [];
}

abbrev south : Candidate ℕ
south = record north { facilitator = org 11 "south" 1 }

two_promoted :
    promote thousandths (scored_as 400 north ∷ scored_as 700 south ∷ [])
    ≡ scored_as 700 south ∷ scored_as 400 north ∷ []
unfolding promote sort_candidates
two_promoted = refl

defaults-AreWeights : AreWeights thousandths (default_weights thousandths)
defaults-AreWeights = (refl, refl, refl, refl, refl)

abbrev decided_run : List Match
decided_run = (match_or_route run none start_tables).1.matches

-- South has more free capacity than north, west has refused the contact, and the interest without a
-- people group goes to the desk.
south_is_recommended :
    decided_run
    ≡ refused ∷ unmade 103 50 11 MatchStatus.recommended ∷ unmade 104 51 1 MatchStatus.triage ∷ []
unfolding match_or_route interests_of resolve_triage_org load_candidates derive_exclusion_list
    process_all process_interest assign_triage recommend insert_match_with_conflict_guard
    attempt_rows scored_candidates promote sort_candidates score capacity_headroom_score
    geography_score language_score fpg_affinity_score theological_score weighted_total hard_filter
south_is_recommended = refl
