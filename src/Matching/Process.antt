-- ===== src/Matching/Process.antt =====
-- The processing of one interest: filter, score, audit rows, ranks and the one match row.
use jp_adopt_core.Prelude.{
  ℕ, ◌+◌, String, Bool, true, false, Option, none, some, List, [], ◌∷◌, ◌++◌, if◌then◌else◌, ◌==◌,
  ◌&&◌, length,
}
use jp_adopt_core.Models.{Contact}
use jp_adopt_core.Matching.Rows.{
  FacilitatingOrg, AdopterInterest, Match, MatchStatus, recommended, triage, undecided, is_open,
}
use jp_adopt_core.Matching.Floats.{Floats}
use jp_adopt_core.Matching.Filter.{FilterReason, hard_filter}
use jp_adopt_core.Matching.Score.{Signals, score, weighted_total}
use jp_adopt_core.Matching.Ranking.{Candidate, Scored, promote}

-- The JSON of `_outbox_payload_for_attempt`; the covered groups stand in the set's order.
pub record FilterResults (F : Type 0) : Type 0 where
  pub facilitator_org_id : ℕ
  pub facilitator_name : String
  pub people_id3 : String
  pub filter_reason : FilterReason
  pub facilitator_active : Bool
  pub facilitator_capacity_committed : ℕ
  pub facilitator_capacity_total : ℕ
  pub covered_people_id3s : List String
  pub weighted_total : Option F
  pub score_breakdown : Option (Signals F)

-- The column `filter_results`: that JSON, or only the reason, for a staff member's override.
pub data FilterJson (F : Type 0) : Type 0 where
  full : FilterResults F → FilterJson F
  reason_only : FilterReason → FilterJson F

abbrev pub reason_of : {F : Type 0} → FilterJson F → FilterReason
reason_of (full r) = r.filter_reason
reason_of (reason_only reason) = reason

pub record MatchAttempt (F : Type 0) : Type 0 where
  pub id : ℕ
  pub contact_id : ℕ
  pub adopter_interest_id : ℕ
  pub run_id : ℕ
  pub candidate_facilitator_id : ℕ
  pub score : Option F
  pub score_breakdown : Option (Signals F)
  pub filter_results : FilterJson F
  pub rank : Option ℕ

-- The tables of the transaction, and the next identifier that `uuid4` returns.
pub record Tables (F : Type 0) : Type 0 where
  pub orgs : List FacilitatingOrg
  pub coverage : List (ℕ × String)
  pub interests : List AdopterInterest
  pub matches : List Match
  pub attempts : List (MatchAttempt F)
  pub next_id : ℕ

pub data OutcomeReason : Type 0 where
  no_fpg no_coverage scored concurrent_conflict_unrecoverable : OutcomeReason

pub record InterestOutcome : Type 0 where
  pub interest_id : ℕ
  pub people_id3 : Option String
  pub triage_match_id : Option ℕ
  pub recommended_match_ids : List ℕ
  pub attempt_ids : List ℕ
  pub reason : OutcomeReason

-- The open match of an interest: the row that `uq_match_open_per_interest` conflicts with.
abbrev pub find_open : ℕ → List Match → Option Match
find_open interest_id [] = none
find_open interest_id (m ∷ ms) =
    if m.adopter_interest_id == interest_id && is_open m.status
    then some m
    else find_open interest_id ms

-- `promoted_attempt_index.get(id)`; of two equal keys the later entry counts.
abbrev pub rank_of : {F : Type 0} → ℕ → ℕ → List (Scored F) → Option ℕ
rank_of i n [] = none
rank_of i n (a ∷ bs) = elim (rank_of i (n + 1) bs) [
  | some r ↦ some r
  | none ↦ if a.candidate.facilitator.id == i then some n else none
]

-- `outcome.attempt_ids`
abbrev pub attempt_ids : {F : Type 0} → List (MatchAttempt F) → List ℕ
attempt_ids [] = []
attempt_ids (a ∷ rest) = a.id ∷ attempt_ids rest

-- `if rank is not None: attempt_obj.rank = rank`
abbrev pub set_rank : {F : Type 0} → Option ℕ → MatchAttempt F → MatchAttempt F
set_rank none a = a
set_rank (some r) a = record a { rank = some r }

-- The backfill of the ranks.
abbrev pub backfill : {F : Type 0} → List (Scored F) → List (MatchAttempt F) → List (MatchAttempt F)
backfill promoted [] = []
backfill promoted (a ∷ rest) =
    set_rank (rank_of a.candidate_facilitator_id 1 promoted) a ∷ backfill promoted rest

abbrev pub scored_entry : {F : Type 0} → Candidate F → Option F → List (Scored F) → List (Scored F)
scored_entry c none rest = rest
scored_entry c (some total) rest = record { candidate = c; total = total } ∷ rest

-- The arguments that `match_or_route` passes down: the float operations, `str.lower`, what other
-- transactions do to the match table between a conflict and the refetch, the contact, the excluded
-- orgs, the weights, the run's identifier and the triage org.
pub record MatchRun (F : Type 0) : Type 0 where
  pub floats : Floats F
  pub lower : String → String
  pub others : List Match → List Match
  pub contact : Contact
  pub excluded : List ℕ
  pub weights : Signals F
  pub run_id : ℕ
  pub triage_org_id : ℕ

-- `_insert_match_with_conflict_guard`; the index refuses a second open row for an interest.
unfoldable pub insert_match_with_conflict_guard :
    {F : Type 0} → (List Match → List Match) → Match → Tables F → Option Match × Bool × Tables F
insert_match_with_conflict_guard others m t = elim (find_open m.adopter_interest_id t.matches) [
  | some _ ↦ (
    find_open m.adopter_interest_id (others t.matches),
    false,
    record t { matches = others t.matches },
  )
  | none ↦ (some m, true, record t { matches = t.matches ++ m ∷ [] })
]

module _ {F : Type 0} (run : MatchRun F) (interest : AdopterInterest) where
  open run use {lower, others, contact, excluded, weights, run_id, triage_org_id, floats as fl}

  -- The candidate of this interest: filtered, and scored if it passes.
  abbrev pub evaluate : String → Candidate F → Candidate F
  evaluate people_id3 c =
      let reason = hard_filter c.facilitator people_id3 c.covered excluded in
      record {
        facilitator = c.facilitator;
        score_vector = elim reason [
          | FilterReason.passed ↦ some (score fl lower contact c.facilitator people_id3 c.covered)
          | _ ↦ none
        ];
        filter_reason = reason;
        covered = c.covered;
      }

  abbrev pub weigh : Option (Signals F) → Option F
  weigh none = none
  weigh (some v) = some (fl.round3 (weighted_total fl v weights))

  abbrev pub attempt_row : String → ℕ → Candidate F → MatchAttempt F
  attempt_row people_id3 attempt_id c = record {
    id = attempt_id;
    contact_id = contact.id;
    adopter_interest_id = interest.id;
    run_id = run_id;
    candidate_facilitator_id = c.facilitator.id;
    score = weigh c.score_vector;
    score_breakdown = c.score_vector;
    filter_results = full (record {
      facilitator_org_id = c.facilitator.id;
      facilitator_name = c.facilitator.name;
      people_id3 = people_id3;
      filter_reason = c.filter_reason;
      facilitator_active = c.facilitator.active;
      facilitator_capacity_committed = c.facilitator.capacity_committed;
      facilitator_capacity_total = c.facilitator.capacity_total;
      covered_people_id3s = c.covered;
      weighted_total = weigh c.score_vector;
      score_breakdown = c.score_vector;
    });
    rank = none;
  }

  -- The audit rows of the loop over the candidates.
  unfoldable pub attempt_rows : String → ℕ → List (Candidate F) → List (MatchAttempt F)
  attempt_rows people_id3 n [] = []
  attempt_rows people_id3 n (c ∷ cs) =
      attempt_row people_id3 n (evaluate people_id3 c) ∷ attempt_rows people_id3 (n + 1) cs

  -- The list `scored` of the same loop.
  unfoldable pub scored_candidates : String → List (Candidate F) → List (Scored F)
  scored_candidates people_id3 [] = []
  scored_candidates people_id3 (c ∷ cs) =
      scored_entry (evaluate people_id3 c) (weigh (evaluate people_id3 c).score_vector)
        (scored_candidates people_id3 cs)

  abbrev pub outcome_of : List ℕ → OutcomeReason → InterestOutcome
  outcome_of attempt_ids reason = record {
    interest_id = interest.id;
    people_id3 = interest.people_id3;
    triage_match_id = none;
    recommended_match_ids = [];
    attempt_ids = attempt_ids;
    reason = reason;
  }

  abbrev pub new_match : ℕ → MatchStatus → ℕ → Match
  new_match org_id status match_id = undecided match_id interest.id org_id status

  -- The triage row of the two paths without a recommendation.
  unfoldable pub assign_triage : List ℕ → OutcomeReason → Tables F → InterestOutcome × Tables F
  unfolding insert_match_with_conflict_guard
  assign_triage attempt_ids reason t =
      let (row, created, t') =
        insert_match_with_conflict_guard others (new_match triage_org_id triage t.next_id)
          (record t { next_id = t.next_id + 1 }) in
      elim row [
        | none ↦ (outcome_of attempt_ids concurrent_conflict_unrecoverable, t')
        | some m ↦ (record (outcome_of attempt_ids reason) { triage_match_id = some m.id }, t')
      ]

  -- The recommendation of the first promoted candidate, if there is one.
  unfoldable pub recommend : List (Scored F) → List ℕ → Tables F → InterestOutcome × Tables F
  unfolding insert_match_with_conflict_guard
  recommend [] attempt_ids t = (outcome_of attempt_ids scored, t)
  recommend (top ∷ _) attempt_ids t =
      let (row, created, t') =
        insert_match_with_conflict_guard others
          (new_match top.candidate.facilitator.id recommended t.next_id)
          (record t { next_id = t.next_id + 1 }) in
      elim row [
        | none ↦ (outcome_of attempt_ids concurrent_conflict_unrecoverable, t')
        | some m ↦
            (record (outcome_of attempt_ids scored) { recommended_match_ids = m.id ∷ [] }, t')
      ]

  -- The table after the audit rows are added.
  abbrev pub with_attempts : List (MatchAttempt F) → Tables F → Tables F
  with_attempts rows t = record t {
    attempts = t.attempts ++ rows;
    next_id = t.next_id + length rows;
  }

  -- The paths behind the scoring loop.
  abbrev pub settle :
      List (MatchAttempt F) → List (Scored F) → Tables F → InterestOutcome × Tables F
  settle rows [] t = assign_triage (attempt_ids rows) no_coverage (with_attempts rows t)
  settle rows (a ∷ bs) t =
      let promoted = promote fl (a ∷ bs) in
      recommend promoted (attempt_ids rows) (with_attempts (backfill promoted rows) t)

  -- The two paths of `_process_interest`, by the interest's people group.
  abbrev pub process_group :
      Option String → List (Candidate F) → Tables F → InterestOutcome × Tables F
  process_group none candidates t = assign_triage [] no_fpg t
  process_group (some people_id3) candidates t =
      settle (attempt_rows people_id3 t.next_id candidates)
        (scored_candidates people_id3 candidates) t

  -- `_process_interest`
  unfoldable pub process_interest : List (Candidate F) → Tables F → InterestOutcome × Tables F
  process_interest candidates t = process_group interest.people_id3 candidates t
