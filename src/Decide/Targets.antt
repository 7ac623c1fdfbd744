-- ===== src/Decide/Targets.antt =====
-- The organisation that a change of organisation proposes.
use jp_adopt_core.Prelude.{
  ℕ, ◌≡◌, ◌≢◌, inl, inr, false, Option, none, some, List, [], ◌∷◌, arith, ◌==◌, ==_iff, Bool-cases,
  All, All-if, leb, ap,
}
use mathlib.Core.Path.{subst}
use jp_adopt_core.Matching.Rows.{FacilitatingOrg, Match}
use jp_adopt_core.Matching.Process.{MatchAttempt}
use jp_adopt_core.Http.{done, ◌>>=◌, ◌>>◌, pure, or_raise, raise_unless, http_error}
use jp_adopt_core.Http.After.{After, After-or_raise, After-raise_unless}
use jp_adopt_core.Decide.Rows.{Store, Actor, DecideRequest, Fresh, find_org, has_any}
use jp_adopt_core.Decide.Access.{staff_roles}
use jp_adopt_core.Decide.Parts.{or_else, is_assignable}
use jp_adopt_core.Decide.Handler.{
  choose_target, choose_alternate, alternates, insert_by_rank, is_alternate, find_attempt,
}

module _ {F : Type 0} (actor : Actor) (fresh : Fresh) (body : DecideRequest) where
  abbrev IsElsewhere : Match → MatchAttempt F → Type 0
  IsElsewhere m a = a.candidate_facilitator_id == m.facilitator_org_id ≡ false

  insert_by_rank-IsElsewhere :
      (m : Match) (a : MatchAttempt F) (rows : List (MatchAttempt F))
      → IsElsewhere m a
      → All (IsElsewhere m) rows
      → All (IsElsewhere m) (insert_by_rank actor fresh body a rows)
  insert_by_rank-IsElsewhere m a [] e h = (e, tt)
  insert_by_rank-IsElsewhere m a (b ∷ bs) e h =
      All-if (IsElsewhere m) (leb (or_else 0 a.rank) (or_else 0 b.rank)) (a ∷ b ∷ bs)
        (b ∷ insert_by_rank actor fresh body a bs) (λ _. (e, h))
        (λ _. (h.0, insert_by_rank-IsElsewhere m a bs e h.1))

  alternates-IsElsewhere :
      (m : Match) (rows : List (MatchAttempt F))
      → All (IsElsewhere m) (alternates actor fresh body m rows)
  unfolding alternates
  alternates-IsElsewhere m [] = tt
  alternates-IsElsewhere m (a ∷ rest) =
      All-if (IsElsewhere m) (is_alternate actor fresh body m a)
        (insert_by_rank actor fresh body a (alternates actor fresh body m rest))
        (alternates actor fresh body m rest)
        (λ e. insert_by_rank-IsElsewhere m a _ (ground arith) (alternates-IsElsewhere m rest))
        (λ _. alternates-IsElsewhere m rest)

  find_attempt-IsElsewhere :
      (m : Match) (i : ℕ) (a : MatchAttempt F) (rows : List (MatchAttempt F))
      → find_attempt actor fresh body i rows ≡ some a
      → All (IsElsewhere m) rows
      → IsElsewhere m a
  find_attempt-IsElsewhere m i a [] e h = absurd (ground arith)
  find_attempt-IsElsewhere m i a (b ∷ bs) e h = elim (Bool-cases (b.id == i)) [
    | inl q ↦ subst (IsElsewhere m) (ap (or_else a) (rw q at e)) h.0
    | inr q ↦ find_attempt-IsElsewhere m i a bs (rw q at e) h.1
  ]

  choose_alternate-After :
      (m : Match) (o : Option ℕ) (rows : List (MatchAttempt F)) (db : Store F)
      → All (IsElsewhere m) rows
      → After
          (λ t _. t == m.facilitator_org_id ≡ false)
          (choose_alternate actor fresh body o rows db)
  choose_alternate-After m none [] db h = tt
  choose_alternate-After m none (a ∷ rest) db h = h.0
  choose_alternate-After m (some i) rows db h =
      After-or_raise (find_attempt actor fresh body i rows) (http_error 400 "alternate_not_found")
        (λ a. pure a.candidate_facilitator_id) db (λ t _. t == m.facilitator_org_id ≡ false)
        λ a e. find_attempt-IsElsewhere m i a rows e h

  choose_target-After :
      (m : Match) (o : Option ℕ) (db : Store F)
      → After (λ t _. t == m.facilitator_org_id ≡ false) (choose_target actor fresh body m o db)
  unfolding choose_target
  choose_target-After m none db =
      choose_alternate-After m body.next_attempt_id _ db
        (alternates-IsElsewhere m db.tables.attempts)
  choose_target-After m (some i) db =
      let Q = λ (t : ℕ) (_ : Store F). t == m.facilitator_org_id ≡ false in
      let check = λ (o : FacilitatingOrg).
        raise_unless (is_assignable m o) (http_error 400 "invalid_override_org") >> pure o.id in
      let find = λ (_ : Unit {0}).
        or_raise (find_org i db.tables.orgs) (http_error 400 "invalid_override_org") >>= check in
      After-raise_unless (has_any actor.roles staff_roles) (http_error 403 "role_required") find db
        Q
        λ _.
          After-or_raise (find_org i db.tables.orgs) (http_error 400 "invalid_override_org") check
            db Q
            λ o _.
              After-raise_unless (is_assignable m o) (http_error 400 "invalid_override_org")
                (λ _. pure o.id) db Q λ e. ground arith

  -- A change of organisation proposes another one.
  pub choose_target_elsewhere :
      (m : Match) (o : Option ℕ) (db : Store F) (t : ℕ)
      → choose_target actor fresh body m o db ≡ (done t, db)
      → t ≢ m.facilitator_org_id
  choose_target_elsewhere m o db t h =
      let e =
        subst (After (λ t _. t == m.facilitator_org_id ≡ false)) h (choose_target-After m o db) in
      ground (arith, ==_iff t m.facilitator_org_id)
