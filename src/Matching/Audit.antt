-- ===== src/Matching/Audit.antt =====
-- The audit rows of an interest.
use jp_adopt_core.Prelude.{
  ℕ, ◌+◌, String, ◌≡◌, ◌↔◌, refl, Option, none, some, List, [], ◌∷◌, ◌++◌, arith, All, ◌≢◌,
}
use mathlib.Core.Path.{ap, ap₂, subst, sym, ◌∙◌}
use jp_adopt_core.Matching.Rows.{AdopterInterest, Match}
use jp_adopt_core.Matching.Filter.{passed}
use jp_adopt_core.Matching.Ranking.{Candidate, Scored, promote}
use jp_adopt_core.Matching.Process.{
  MatchAttempt, reason_of, Tables, MatchRun, OutcomeReason, evaluate, attempt_row, attempt_rows,
  scored_candidates, set_rank, backfill, attempt_ids, rank_of, with_attempts, assign_triage,
  recommend, settle, process_group, process_interest, insert_match_with_conflict_guard,
}

-- The facilitators that audit rows, or candidates, are about.
abbrev pub audited : {F : Type 0} → List (MatchAttempt F) → List ℕ
audited [] = []
audited (a ∷ rest) = a.candidate_facilitator_id ∷ audited rest

abbrev pub considered : {F : Type 0} → List (Candidate F) → List ℕ
considered [] = []
considered (c ∷ cs) = c.facilitator.id ∷ considered cs

-- A row has a score exactly when its filter passed.
abbrev pub IsHonest : {F : Type 0} → MatchAttempt F → Type 0
IsHonest a = (a.score ≡ none) ↔ (reason_of a.filter_results ≢ passed)

module _ {F : Type 0} (run : MatchRun F) (i : AdopterInterest) where
  attempt_row-IsHonest :
      (p : String) (n : ℕ) (c : Candidate F) → IsHonest (attempt_row run i p n (evaluate run i p c))
  attempt_row-IsHonest p n c = (λ h. ground arith, λ h. ground arith)

  attempt_rows-audited :
      (p : String) (n : ℕ) (cs : List (Candidate F))
      → (audited (attempt_rows run i p n cs) ≡ considered cs)
        × All IsHonest (attempt_rows run i p n cs)
  unfolding attempt_rows
  attempt_rows-audited p n [] = (refl, tt)
  attempt_rows-audited p n (c ∷ cs) =
      let r = attempt_rows-audited p (n + 1) cs in
      (ap (λ (xs : List ℕ). c.facilitator.id ∷ xs) r.0, (attempt_row-IsHonest p n c, r.1))

  insert-attempts :
      (m : Match) (t : Tables F)
      → (insert_match_with_conflict_guard run.others m t).2.attempts ≡ t.attempts
  unfolding insert_match_with_conflict_guard
  insert-attempts m t = ground arith

  assign_triage-attempts :
      (ids : List ℕ) (r : OutcomeReason) (t : Tables F)
      → (assign_triage run i ids r t).1.attempts ≡ t.attempts
  unfolding assign_triage
  assign_triage-attempts ids r t = ground arith

  recommend-attempts :
      (promoted : List (Scored F)) (ids : List ℕ) (t : Tables F)
      → (recommend run i promoted ids t).1.attempts ≡ t.attempts
  unfolding recommend
  recommend-attempts [] ids t = refl
  recommend-attempts (top ∷ rest) ids t = ground arith

-- The ranks change no other field of a row.
set_rank-audited :
    {F : Type 0} (r : Option ℕ) (a : MatchAttempt F)
    → IsHonest a
    → ((set_rank r a).candidate_facilitator_id ≡ a.candidate_facilitator_id)
      × IsHonest (set_rank r a)
set_rank-audited none a h = (refl, h)
set_rank-audited (some r) a h = (refl, h)

backfill-audited :
    {F : Type 0} (promoted : List (Scored F)) (rows : List (MatchAttempt F))
    → All IsHonest rows
    → (audited (backfill promoted rows) ≡ audited rows) × All IsHonest (backfill promoted rows)
backfill-audited promoted [] h = (refl, tt)
backfill-audited promoted (a ∷ rest) h =
    let r = backfill-audited promoted rest h.1 in
    let s = set_rank-audited (rank_of a.candidate_facilitator_id 1 promoted) a h.0 in
    (ap₂ (λ (x : ℕ) (xs : List ℕ). x ∷ xs) s.0 r.0, (s.1, r.1))

-- For an interest with a people group, whichever way it ends and also if another match won the
-- race, the processing appends audit rows: one for each candidate in order, each without a score
-- exactly if its candidate failed the filter.
process_interest_audits :
    {F : Type 0} (run : MatchRun F) (i : AdopterInterest) (cs : List (Candidate F)) (t : Tables F)
    → {p : String} → i.people_id3 ≡ some p
    → (rows : List (MatchAttempt F)) × ((process_interest run i cs t).1.attempts
        ≡ t.attempts ++ rows)
      × (audited rows ≡ considered cs)
      × All IsHonest rows
unfolding process_interest
process_interest_audits {F} run i cs t {p} e =
    subst
      (λ (g : Option String).
        (rows : List (MatchAttempt F)) × ((process_group run i g cs t).1.attempts
          ≡ t.attempts ++ rows)
        × (audited rows ≡ considered cs)
        × All IsHonest rows)
      (sym e) (by_scored (scored_candidates run i p cs))
  where
    raw : List (MatchAttempt F)
    raw = attempt_rows run i p t.next_id cs

    raw-audited : (audited raw ≡ considered cs) × All IsHonest raw
    raw-audited = attempt_rows-audited run i p t.next_id cs

    by_scored :
        (scored : List (Scored F))
        → (rows : List (MatchAttempt F)) × ((settle run i raw scored t).1.attempts
            ≡ t.attempts ++ rows)
          × (audited rows ≡ considered cs)
          × All IsHonest rows
    by_scored [] = (
      raw,
      assign_triage-attempts run i (attempt_ids raw) OutcomeReason.no_coverage
          (with_attempts run i raw t),
      raw-audited.0,
      raw-audited.1,
    )
    by_scored (a ∷ bs) =
        let promoted = promote run.floats (a ∷ bs) in
        let b = backfill-audited promoted raw raw-audited.1 in
        (
          backfill promoted raw,
          recommend-attempts run i promoted (attempt_ids raw)
              (with_attempts run i (backfill promoted raw) t),
          b.0 ∙ raw-audited.0,
          b.1,
        )
