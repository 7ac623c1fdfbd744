-- ===== src/Digest/Plans.antt =====
-- Who gets which matches: `build_digest_for_window` of domain/digest.py.
use jp_adopt_core.Prelude.{
  ℕ, String, Bool, true, false, Option, none, some, List, [], ◌∷◌, ◌++◌, if◌then◌else◌, ◌==◌, ◌=ₛ◌,
  ltb, leb, ◌&&◌, ◌||◌, in_texts, in_ids, filter, map,
}
use jp_adopt_core.Models.{Contact}
use jp_adopt_core.Text.{Text, text_eq, text_lt}
use jp_adopt_core.Matching.Rows.{
  FacilitatingOrg, AdopterInterest, MatchStatus, recommended, accepted,
}
use jp_adopt_core.Decide.Rows.{find_interest, find_contact, find_org}
use jp_adopt_core.Digest.Rows.{
  StampedMatch, StaffProfile, DigestMatch, RecipientKind, all_staff, adoption_manager, facilitator,
  DigestRecipientPlan, Tables,
}

-- `DIGEST_MATCH_STATUSES`
abbrev pub is_digest_status : MatchStatus → Bool
is_digest_status recommended = true
is_digest_status accepted = true
is_digest_status _ = false

-- `STAFF_DIGEST_ROLE_NAMES`
abbrev pub staff_digest_role_names : List String
staff_digest_role_names = "staff_admin" ∷ "adoption_manager" ∷ []

abbrev pub digest_match : StampedMatch → AdopterInterest → Contact → FacilitatingOrg → DigestMatch
digest_match m i c o = record {
  match_id = m.row.id;
  contact_id = c.id;
  contact_display_name = c.display_name;
  contact_email_normalized = c.email_normalized;
  people_id3 = i.people_id3;
  facilitator_org_id = o.id;
  facilitator_name = o.name;
  status = m.row.status;
  recommended_at = m.recommended_at;
}

-- The inner joins of a match: nothing where a row is missing.
abbrev pub join_org :
    StampedMatch → AdopterInterest → Contact → Option FacilitatingOrg → List DigestMatch
join_org m i c none = []
join_org m i c (some o) = digest_match m i c o ∷ []

abbrev pub join_contact :
    Tables → StampedMatch → AdopterInterest → Option Contact → List DigestMatch
join_contact t m i none = []
join_contact t m i (some c) = join_org m i c (find_org m.row.facilitator_org_id t.orgs)

abbrev pub join_interest : Tables → StampedMatch → Option AdopterInterest → List DigestMatch
join_interest t m none = []
join_interest t m (some i) = join_contact t m i (find_contact i.contact_id t.contacts)

abbrev pub in_window : ℕ → ℕ → StampedMatch → Bool
in_window window_start window_end m =
    is_digest_status m.row.status
    && leb window_start m.recommended_at
    && ltb m.recommended_at window_end

-- `ORDER BY recommended_at`
abbrev pub insert_match : DigestMatch → List DigestMatch → List DigestMatch
insert_match m [] = m ∷ []
insert_match m (x ∷ xs) =
    if ltb x.recommended_at m.recommended_at then x ∷ insert_match m xs else m ∷ x ∷ xs

abbrev pub insert_all : List DigestMatch → List DigestMatch → List DigestMatch
insert_all [] sorted = sorted
insert_all (m ∷ ms) sorted = insert_match m (insert_all ms sorted)

-- `_load_matches_in_window`
unfoldable pub load_matches_in_window : Tables → ℕ → ℕ → List StampedMatch → List DigestMatch
load_matches_in_window t window_start window_end [] = []
load_matches_in_window t window_start window_end (m ∷ ms) =
    let rest = load_matches_in_window t window_start window_end ms in
    if in_window window_start window_end m
    then insert_all (join_interest t m (find_interest m.row.adopter_interest_id t.interests)) rest
    else rest

-- The profile of a subject, if it is active and opted in.
abbrev pub find_profile : String → List StaffProfile → Option StaffProfile
find_profile sub [] = none
find_profile sub (p ∷ ps) =
    if p.b2c_subject_id =ₛ sub && p.is_active && p.digest_opt_in
    then some p
    else find_profile sub ps

abbrev pub kind_of : String → RecipientKind
kind_of role = if role =ₛ "staff_admin" then all_staff else adoption_manager

abbrev pub mem_text : Text → List Text → Bool
mem_text t [] = false
mem_text t (x ∷ xs) = text_eq x t || mem_text t xs

abbrev pub is_nil : Text → Bool
is_nil [] = true
is_nil (c ∷ cs) = false

-- The rows of the join, in the order of the roles: role and address.
abbrev pub staff_row : String → Option StaffProfile → List (String × Text)
staff_row role none = []
staff_row role (some p) = (role, p.email_normalized) ∷ []

unfoldable pub staff_rows : List StaffProfile → List (String × String) → List (String × Text)
staff_rows profiles [] = []
staff_rows profiles ((sub, role) ∷ rest) =
    (if in_texts role staff_digest_role_names
      then staff_row role (find_profile sub profiles)
      else [])
    ++ staff_rows profiles rest

-- `_load_staff_recipients`: each address once, with the kind of its first row.
unfoldable pub staff_recipients : List Text → List (String × Text) → List (Text × RecipientKind)
staff_recipients seen [] = []
staff_recipients seen ((role, email) ∷ rest) =
    let skip = staff_recipients seen rest in
    let keep = staff_recipients (email ∷ seen) rest in
    if is_nil email || mem_text email seen then skip else (email, kind_of role) ∷ keep

abbrev pub has_sub : String → Contact → Bool
has_sub sub c = elim c.b2c_subject_id [ none ↦ false | some s ↦ s =ₛ sub ]

abbrev pub some_email : Option Text → Option Text → Option Text
some_email none acc = acc
some_email (some []) acc = acc
some_email (some (c ∷ cs)) acc = some (c ∷ cs)

-- `email_by_sub.get(sub)`: the last contact of the subject with an address.
abbrev pub email_by_sub : String → Option Text → List Contact → Option Text
email_by_sub sub acc [] = acc
email_by_sub sub acc (c ∷ cs) =
    email_by_sub sub (if has_sub sub c then some_email c.email_normalized acc else acc) cs

abbrev pub add_address : Option Text → List Text → List Text
add_address none addresses = addresses
add_address (some a) addresses = a ∷ addresses

-- `_load_facilitator_recipients` for one organisation.
unfoldable pub org_addresses : List Contact → ℕ → List (String × ℕ) → List Text
org_addresses contacts org_id [] = []
org_addresses contacts org_id ((sub, o) ∷ rest) =
    if o == org_id
    then add_address (email_by_sub sub none contacts) (org_addresses contacts org_id rest)
    else org_addresses contacts org_id rest

-- The set of the matches' organisations, in the order of their first match.
abbrev pub org_ids : List ℕ → List DigestMatch → List ℕ
org_ids seen [] = []
org_ids seen (m ∷ ms) =
    let rest = org_ids (m.facilitator_org_id ∷ seen) ms in
    let same = org_ids seen ms in
    if in_ids m.facilitator_org_id seen then same else m.facilitator_org_id ∷ rest

abbrev pub staff_plan : List DigestMatch → Text × RecipientKind → DigestRecipientPlan
staff_plan matches (address, kind) = record {
  recipient_address = address;
  recipient_kind = kind;
  facilitator_org_id = none;
  matches = matches;
}

abbrev pub org_plan : ℕ → List DigestMatch → Text → DigestRecipientPlan
org_plan org_id org_matches address = record {
  recipient_address = address;
  recipient_kind = facilitator;
  facilitator_org_id = some org_id;
  matches = org_matches;
}

-- `address in plans`
abbrev pub planned : Text → List DigestRecipientPlan → Bool
planned a [] = false
planned a (p ∷ ps) = text_eq p.recipient_address a || planned a ps

-- The plans of one organisation: an address that has a plan is left out.
unfoldable pub add_org :
    ℕ → List DigestMatch → List Text → List DigestRecipientPlan → List DigestRecipientPlan
add_org org_id ms [] plans = plans
add_org org_id ms (a ∷ rest) plans =
    add_org org_id ms rest (if planned a plans then plans else plans ++ org_plan org_id ms a ∷ [])

abbrev pub of_org : ℕ → DigestMatch → Bool
of_org org_id m = m.facilitator_org_id == org_id

unfoldable pub add_orgs :
    Tables → List DigestMatch → List ℕ → List DigestRecipientPlan → List DigestRecipientPlan
unfolding add_org org_addresses
add_orgs t matches [] plans = plans
add_orgs t matches (o ∷ os) plans =
    add_orgs t matches os
      (add_org o (filter (of_org o) matches) (org_addresses t.contacts o t.memberships) plans)

-- `sorted(…, key=recipient_address)`
abbrev pub insert_plan : DigestRecipientPlan → List DigestRecipientPlan → List DigestRecipientPlan
insert_plan p [] = p ∷ []
insert_plan p (q ∷ qs) =
    if text_lt q.recipient_address p.recipient_address then q ∷ insert_plan p qs else p ∷ q ∷ qs

abbrev pub sort_plans : List DigestRecipientPlan → List DigestRecipientPlan
sort_plans [] = []
sort_plans (p ∷ ps) = insert_plan p (sort_plans ps)

abbrev pub plans_for : Tables → List DigestMatch → List DigestRecipientPlan
plans_for t [] = []
plans_for t (m ∷ ms) = sort_plans (
    add_orgs t (m ∷ ms) (org_ids [] (m ∷ ms))
      (map (staff_plan (m ∷ ms)) (staff_recipients [] (staff_rows t.profiles t.roles))))

-- `build_digest_for_window`
unfoldable pub build_digest_for_window : Tables → ℕ → ℕ → List DigestRecipientPlan
unfolding load_matches_in_window staff_recipients staff_rows add_orgs
build_digest_for_window t window_start window_end =
    plans_for t (load_matches_in_window t window_start window_end t.matches)
