-- ===== src/Matching/Run.antt =====
-- `match_or_route`: one contact, all its interests.
use jp_adopt_core.Prelude.{
  ℕ, String, Option, none, some, List, [], ◌∷◌, if◌then◌else◌, ◌==◌, ◌&&◌, in_ids,
}
use jp_adopt_core.Matching.Rows.{FacilitatingOrg, AdopterInterest, Match, is_refusal}
use jp_adopt_core.Matching.Filter.{passed}
use jp_adopt_core.Matching.Ranking.{Candidate}
use jp_adopt_core.Matching.Process.{Tables, MatchRun, InterestOutcome, process_interest}

-- `coverage.get(org.id, set())`
abbrev pub covered_by : ℕ → List (ℕ × String) → List String
covered_by org_id [] = []
covered_by org_id ((o, p) ∷ rest) =
    if o == org_id then p ∷ covered_by org_id rest else covered_by org_id rest

-- `_load_facilitators_with_coverage`: the orgs but the triage org.
unfoldable pub load_candidates :
    {F : Type 0} → List (ℕ × String) → List FacilitatingOrg → List (Candidate F)
load_candidates coverage [] = []
load_candidates coverage (o ∷ os) =
    if o.is_triage_org
    then load_candidates coverage os
    else record {
      facilitator = o;
      score_vector = none;
      filter_reason = passed;
      covered = covered_by o.id coverage;
    }
      ∷ load_candidates coverage os

-- `_resolve_triage_org`; `uq_facilitating_org_is_triage_org` admits one row at most.
unfoldable pub resolve_triage_org : List FacilitatingOrg → Option FacilitatingOrg
resolve_triage_org [] = none
resolve_triage_org (o ∷ os) = if o.is_triage_org then some o else resolve_triage_org os

-- `SELECT … WHERE contact_id = …`
unfoldable pub interests_of : ℕ → List AdopterInterest → List AdopterInterest
interests_of contact_id [] = []
interests_of contact_id (i ∷ is) =
    if i.contact_id == contact_id
    then i ∷ interests_of contact_id is
    else interests_of contact_id is

abbrev pub interest_ids : List AdopterInterest → List ℕ
interest_ids [] = []
interest_ids (i ∷ is) = i.id ∷ interest_ids is

-- The facilitators of refused matches of these interests.
abbrev pub refused_by : List ℕ → List Match → List ℕ
refused_by ids [] = []
refused_by ids (m ∷ ms) =
    if in_ids m.adopter_interest_id ids && is_refusal m.status
    then m.facilitator_org_id ∷ refused_by ids ms
    else refused_by ids ms

-- `_derive_exclusion_list`
unfoldable pub derive_exclusion_list : {F : Type 0} → ℕ → Tables F → List ℕ
unfolding interests_of
derive_exclusion_list contact_id t =
    refused_by (interest_ids (interests_of contact_id t.interests)) t.matches

-- How a run ends: TriageOrgMissingError, or an outcome for each interest.
pub data RunResult : Type 0 where
  triage_org_missing : RunResult
  routed : List InterestOutcome → RunResult

module _ {F : Type 0} where
  -- The loop over the interests.
  unfoldable pub process_all :
      MatchRun F
      → List (Candidate F)
      → List AdopterInterest
      → Tables F
      → List InterestOutcome × Tables F
  process_all run candidates [] t = ([], t)
  process_all run candidates (i ∷ is) t =
      let (o, t') = process_interest run i candidates t in
      let (os, t'') = process_all run candidates is t' in (o ∷ os, t'')

  abbrev pub exclusions : Option (List ℕ) → ℕ → Tables F → List ℕ
  exclusions none contact_id t = derive_exclusion_list contact_id t
  exclusions (some ids) contact_id t = ids

  -- The run with its exclusion list and its triage org.
  abbrev pub settled_run : MatchRun F → Option (List ℕ) → FacilitatingOrg → Tables F → MatchRun F
  settled_run run excluded triage_org t = record run {
    excluded = exclusions excluded run.contact.id t;
    triage_org_id = triage_org.id;
  }

  abbrev pub route :
      MatchRun F
      → Option (List ℕ)
      → List AdopterInterest
      → Tables F
      → Option FacilitatingOrg
      → RunResult × Tables F
  route run excluded interests t none = (triage_org_missing, t)
  route run excluded interests t (some triage_org) =
      let (os, t') =
        process_all (settled_run run excluded triage_org t) (load_candidates t.coverage t.orgs)
          interests t in
      (routed os, t')

  abbrev pub route_interests :
      MatchRun F → Option (List ℕ) → List AdopterInterest → Tables F → RunResult × Tables F
  route_interests run excluded [] t = (routed [], t)
  route_interests run excluded (i ∷ is) t =
      route run excluded (i ∷ is) t (resolve_triage_org t.orgs)

  -- `match_or_route`; the exclusion list and the triage org that `run` holds are replaced.
  unfoldable pub match_or_route : MatchRun F → Option (List ℕ) → Tables F → RunResult × Tables F
  match_or_route run excluded t =
      route_interests run excluded (interests_of run.contact.id t.interests) t
