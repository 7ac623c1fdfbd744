-- ===== src/Matching/Justified.antt =====
-- Every match row that a run adds is justified.
use jp_adopt_core.Prelude.{
  ℕ, ◌+◌, String, ◌≡◌, ◌⊎◌, inl, inr, refl, false, Option, none, some, List, [], ◌∷◌, ◌++◌, arith,
  Option-cases, All, All-if, All-Memᴰ,
}
use mathlib.Core.List.{Memᴰ}
use mathlib.Core.Path.{subst}
use jp_adopt_core.Matching.Rows.{FacilitatingOrg, AdopterInterest, Match, recommended, triage}
use jp_adopt_core.Matching.Filter.{passed, hard_filter}
use jp_adopt_core.Matching.Ranking.{Candidate, Scored, promote}
use jp_adopt_core.Matching.Order.{promote-All}
use jp_adopt_core.Matching.Process.{
  MatchAttempt, MatchRun, scored_entry, Tables, OutcomeReason, find_open,
  insert_match_with_conflict_guard, evaluate, weigh, scored_candidates, assign_triage, recommend,
  settle, process_interest, process_group, new_match, with_attempts, backfill, attempt_rows,
}
use jp_adopt_core.Matching.Run.{
  covered_by, load_candidates, resolve_triage_org, interests_of, process_all, route,
  route_interests, match_or_route, settled_run,
}

-- Why a run may add a match row for one of the interests `is`: it goes to the triage org, or it
-- recommends one of the orgs, which is no triage org and passes the hard filter for the people group of
-- the interest, under the exclusions.
abbrev pub IsJustified :
    ℕ → List FacilitatingOrg → List (ℕ × String) → List ℕ → List AdopterInterest → Match → Type 0
IsJustified triage_org_id orgs coverage excluded is m =
    (i : AdopterInterest) × Memᴰ i is
    × (m.adopter_interest_id ≡ i.id)
    × (((m.status ≡ triage) × (m.facilitator_org_id ≡ triage_org_id))
        ⊎ ((o : FacilitatingOrg) × (p : String) × Memᴰ o orgs
            × (i.people_id3 ≡ some p)
            × (m.status ≡ recommended)
            × (m.facilitator_org_id ≡ o.id)
            × (o.is_triage_org ≡ false)
            × (hard_filter o p (covered_by o.id coverage) excluded ≡ passed)))

-- A candidate as it is loaded.
abbrev pub IsLoaded : {F : Type 0} → List FacilitatingOrg → List (ℕ × String) → Candidate F → Type 0
IsLoaded orgs coverage c =
    (c.covered ≡ covered_by c.facilitator.id coverage)
    × (c.facilitator.is_triage_org ≡ false)
    × Memᴰ c.facilitator orgs

load_candidates-IsLoaded :
    (F : Type 0) (orgs : List FacilitatingOrg) (coverage : List (ℕ × String))
    (os : List FacilitatingOrg)
    → All (λ o. Memᴰ o orgs) os
    → All (IsLoaded {F = F} orgs coverage) (load_candidates coverage os)
unfolding load_candidates
load_candidates-IsLoaded F orgs coverage [] m = tt
load_candidates-IsLoaded F orgs coverage (o ∷ os) m =
    All-if (IsLoaded orgs coverage) o.is_triage_org (load_candidates coverage os)
      (record {
        facilitator = o;
        score_vector = none;
        filter_reason = passed;
        covered = covered_by o.id coverage;
      }
        ∷ load_candidates coverage os)
      (λ e. load_candidates-IsLoaded F orgs coverage os m.1)
      (λ e. ((refl, e, m.0), load_candidates-IsLoaded F orgs coverage os m.1))

-- A scored candidate that may be recommended for a people group.
abbrev IsEligible :
    {F : Type 0} → List FacilitatingOrg → List (ℕ × String) → List ℕ → String → Scored F → Type 0
IsEligible orgs coverage excluded p a =
    (o : FacilitatingOrg) × Memᴰ o orgs
    × (a.candidate.facilitator.id ≡ o.id)
    × (o.is_triage_org ≡ false)
    × (hard_filter o p (covered_by o.id coverage) excluded ≡ passed)

All-scored_entry :
    {F : Type 0} (P : Scored F → Type 0) (c : Candidate F) (total : Option F)
    (rest : List (Scored F))
    → ((x : F) → total ≡ some x → P (record { candidate = c; total = x }))
    → All P rest
    → All P (scored_entry c total rest)
All-scored_entry P c none rest f h = h
All-scored_entry P c (some x) rest f h = (f x refl, h)

module _ {F : Type 0} (run : MatchRun F) (orgs : List FacilitatingOrg)
    (coverage : List (ℕ × String)) where
  weighed_passes :
      (i : AdopterInterest) (p : String) (c : Candidate F) (x : F)
      → weigh run i (evaluate run i p c).score_vector ≡ some x
      → hard_filter c.facilitator p c.covered run.excluded ≡ passed
  weighed_passes i p c x e = ground arith

  scored_candidates-IsEligible :
      (i : AdopterInterest) (p : String) (cs : List (Candidate F))
      → All (IsLoaded orgs coverage) cs
      → All (IsEligible orgs coverage run.excluded p) (scored_candidates run i p cs)
  unfolding scored_candidates
  scored_candidates-IsEligible i p [] h = tt
  scored_candidates-IsEligible i p (c ∷ cs) h =
      All-scored_entry (IsEligible orgs coverage run.excluded p) (evaluate run i p c)
        (weigh run i (evaluate run i p c).score_vector) (scored_candidates run i p cs)
        (λ x e. (
          c.facilitator,
          h.0.2,
          refl,
          h.0.1,
          subst (λ (l : List String). hard_filter c.facilitator p l run.excluded ≡ passed) h.0.0
              (weighed_passes i p c x e),
        ))
        (scored_candidates-IsEligible i p cs h.1)

-- An invariant of the match table that other transactions keep, and that an insertion keeps which
-- the index admits and which is justified.
pub record IsKept {F : Type 0} (run : MatchRun F) (orgs : List FacilitatingOrg)
    (coverage : List (ℕ × String)) (is : List AdopterInterest) (I : List Match → Type 0)
    : Type 0 where
  pub others_keep : (ms : List Match) → I ms → I (run.others ms)
  pub insert_keeps :
      (m : Match) (ms : List Match)
      → find_open m.adopter_interest_id ms ≡ none
      → IsJustified run.triage_org_id orgs coverage run.excluded is m
      → I ms
      → I (ms ++ m ∷ [])

module _ {F : Type 0} (run : MatchRun F) (orgs : List FacilitatingOrg)
    (coverage : List (ℕ × String)) (is : List AdopterInterest) (I : List Match → Type 0)
    (kept : IsKept run orgs coverage is I) where
  insert-keeps :
      (m : Match) (t : Tables F)
      → IsJustified run.triage_org_id orgs coverage run.excluded is m
      → I t.matches
      → I (insert_match_with_conflict_guard run.others m t).2.matches
  unfolding insert_match_with_conflict_guard
  insert-keeps m t j h = elim (Option-cases (find_open m.adopter_interest_id t.matches)) [
    | inl e ↦ rw (e, insert_match_with_conflict_guard) (kept.insert_keeps m t.matches e j h)
    | inr (old, e) ↦ rw (e, insert_match_with_conflict_guard) (kept.others_keep t.matches h)
  ]

  -- What follows the insertion leaves the tables alone.
  assign_triage-tables :
      (i : AdopterInterest) (ids : List ℕ) (r : OutcomeReason) (t : Tables F)
      → (assign_triage run i ids r t).1
        ≡ (insert_match_with_conflict_guard run.others
            (new_match run i run.triage_org_id triage t.next_id)
            (record t { next_id = t.next_id + 1 })).2
  unfolding assign_triage
  assign_triage-tables i ids r t = ground arith

  assign_triage-keeps :
      (i : AdopterInterest) (ids : List ℕ) (r : OutcomeReason) (t : Tables F)
      → Memᴰ i is
      → I t.matches
      → I (assign_triage run i ids r t).1.matches
  assign_triage-keeps i ids r t there h = rw (assign_triage-tables i ids r t) (
      insert-keeps (new_match run i run.triage_org_id triage t.next_id)
        (record t { next_id = t.next_id + 1 }) (i, there, refl, inl (refl, refl)) h)

  recommend-tables :
      (i : AdopterInterest) (top : Scored F) (rest : List (Scored F)) (ids : List ℕ) (t : Tables F)
      → (recommend run i (top ∷ rest) ids t).1
        ≡ (insert_match_with_conflict_guard run.others
            (new_match run i top.candidate.facilitator.id recommended t.next_id)
            (record t { next_id = t.next_id + 1 })).2
  unfolding recommend
  recommend-tables i top rest ids t = ground arith

  recommend-keeps :
      (i : AdopterInterest) (p : String) (promoted : List (Scored F)) (ids : List ℕ) (t : Tables F)
      → Memᴰ i is
      → i.people_id3 ≡ some p
      → All (IsEligible orgs coverage run.excluded p) promoted
      → I t.matches
      → I (recommend run i promoted ids t).1.matches
  unfolding recommend
  recommend-keeps i p [] ids t there group e h = h
  recommend-keeps i p (top ∷ rest) ids t there group ((o, row, same, not_triage, passes), _) h =
      rw (recommend-tables i top rest ids t) (
        insert-keeps (new_match run i top.candidate.facilitator.id recommended t.next_id)
          (record t { next_id = t.next_id + 1 })
          (i, there, refl, inr (o, p, row, group, refl, same, not_triage, passes)) h)

  settle-keeps :
      (i : AdopterInterest) (p : String) (rows : List (MatchAttempt F)) (scored : List (Scored F))
      → (t : Tables F) → Memᴰ i is
      → i.people_id3 ≡ some p
      → All (IsEligible orgs coverage run.excluded p) scored
      → I t.matches
      → I (settle run i rows scored t).1.matches
  settle-keeps i p rows [] t there group e h =
      assign_triage-keeps i _ OutcomeReason.no_coverage (with_attempts run i rows t) there h
  settle-keeps i p rows (a ∷ bs) t there group e h =
      recommend-keeps i p (promote run.floats (a ∷ bs)) _
        (with_attempts run i (backfill (promote run.floats (a ∷ bs)) rows) t) there group
        (promote-All run.floats (IsEligible orgs coverage run.excluded p) (a ∷ bs) e) h

  process_group-keeps :
      (i : AdopterInterest) (people_id3 : Option String) (cs : List (Candidate F)) (t : Tables F)
      → Memᴰ i is
      → i.people_id3 ≡ people_id3
      → All (IsLoaded orgs coverage) cs
      → I t.matches
      → I (process_group run i people_id3 cs t).1.matches
  process_group-keeps i none cs t there group l h =
      assign_triage-keeps i [] OutcomeReason.no_fpg t there h
  process_group-keeps i (some p) cs t there group l h =
      settle-keeps i p (attempt_rows run i p t.next_id cs) (scored_candidates run i p cs) t there
        group (scored_candidates-IsEligible run orgs coverage i p cs l) h

  process_interest-keeps :
      (i : AdopterInterest) (cs : List (Candidate F)) (t : Tables F)
      → Memᴰ i is
      → All (IsLoaded orgs coverage) cs
      → I t.matches
      → I (process_interest run i cs t).1.matches
  unfolding process_interest
  process_interest-keeps i cs t there l h = process_group-keeps i i.people_id3 cs t there refl l h

  process_all-keeps :
      (cs : List (Candidate F)) (todo : List AdopterInterest) (t : Tables F)
      → All (λ i. Memᴰ i is) todo
      → All (IsLoaded orgs coverage) cs
      → I t.matches
      → I (process_all run cs todo t).1.matches
  unfolding process_all
  process_all-keeps cs [] t m l h = h
  process_all-keeps cs (i ∷ todo) t m l h =
      process_all-keeps cs todo (process_interest run i cs t).1 m.1 l
        (process_interest-keeps i cs t m.0 l h)

-- An invariant of the match table that other transactions keep, and that every insertion keeps which
-- the index admits and which the run justifies, holds after the run.
pub match_or_route-keeps :
    {F : Type 0} (run : MatchRun F) (excluded : Option (List ℕ)) (t : Tables F)
    → (I : List Match → Type 0)
    → ((triage_org : FacilitatingOrg)
        → resolve_triage_org t.orgs ≡ some triage_org
        → IsKept
            (settled_run run excluded triage_org t)
            t.orgs
            t.coverage
            (interests_of run.contact.id t.interests)
            I)
    → I t.matches
    → I (match_or_route run excluded t).1.matches
unfolding match_or_route
match_or_route-keeps {F} run excluded t I kept h =
    by_interests (interests_of run.contact.id t.interests) (All-Memᴰ _)
  where
    by_triage :
        (todo : List AdopterInterest) (org : Option FacilitatingOrg)
        → All (λ i. Memᴰ i (interests_of run.contact.id t.interests)) todo
        → resolve_triage_org t.orgs ≡ org
        → I (route run excluded todo t org).1.matches
    by_triage todo none m e = h
    by_triage todo (some org) m e =
        process_all-keeps (settled_run run excluded org t) t.orgs t.coverage
          (interests_of run.contact.id t.interests) I (kept org e)
          (load_candidates t.coverage t.orgs) todo t m
          (load_candidates-IsLoaded F t.orgs t.coverage t.orgs (All-Memᴰ t.orgs)) h

    by_interests :
        (todo : List AdopterInterest)
        → All (λ i. Memᴰ i (interests_of run.contact.id t.interests)) todo
        → I (route_interests run excluded todo t).1.matches
    by_interests [] m = h
    by_interests (i ∷ todo) m = by_triage (i ∷ todo) (resolve_triage_org t.orgs) m refl
