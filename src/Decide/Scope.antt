-- ===== src/Decide/Scope.antt =====
-- Who may decide a match, and what the queue shows.
use jp_adopt_core.Prelude.{
  ℕ, String, ◌≡◌, refl, ◌⊎◌, Bool, true, false, some, ap, filter, List, [], ◌∷◌, arith, ◌&&◌,
  in_texts, =ₛ_iff,
}
use jp_adopt_core.Matching.Rows.{Match}
use jp_adopt_core.Http.{Outcome, done, succeeds}
use jp_adopt_core.Http.After.{After-done, After-always}
use jp_adopt_core.Decide.Rows.{
  Store, Actor, DecideRequest, Fresh, in_queue, is_triage, has_any, find_match, visible_org_ids,
}
use jp_adopt_core.Decide.Access.{
  queue_roles, staff_roles, is_member, in_scope, check_decide_access, check_view_access, queue_rows,
  get_queue,
}
use jp_adopt_core.Decide.Parts.{Decided}
use jp_adopt_core.Decide.Admission.{decide_request-After}
use jp_adopt_core.Decide.Handler.{decide_loaded, decide_request, decide_match}

-- Staff, a facilitator of the match's organisation, or a triage facilitator at a triage match.
abbrev pub HasStanding : Actor → Match → List (String × ℕ) → Type 0
HasStanding actor m memberships =
    (has_any actor.roles staff_roles ≡ true)
    ⊎ ((in_texts "facilitator" actor.roles ≡ true) × (is_member actor m memberships ≡ true))
    ⊎ ((in_texts "triage_facilitator" actor.roles ≡ true) × (is_triage m.status ≡ true))

queue_role_cases :
    (roles : List String)
    → has_any roles queue_roles ≡ true
    → (has_any roles staff_roles ≡ true)
      ⊎ (in_texts "facilitator" roles ≡ true)
      ⊎ (in_texts "triage_facilitator" roles ≡ true)
queue_role_cases [] h = absurd (ground arith)
queue_role_cases (r ∷ rs) h = ground (
  arith,
  queue_role_cases rs,
  =ₛ_iff r "facilitator",
  =ₛ_iff "facilitator" r,
  =ₛ_iff r "triage_facilitator",
  =ₛ_iff "triage_facilitator" r,
)

queue_rows-filter :
    (roles : List String) (ids : List ℕ) (p : Match → Bool) (ms : List Match)
    → ((m : Match) → in_scope roles ids m ≡ p m)
    → queue_rows roles ids ms ≡ filter (λ m. in_queue m.status && p m) ms
unfolding queue_rows
queue_rows-filter roles ids p [] e = refl
queue_rows-filter roles ids p (m ∷ ms) e = rw (e m, queue_rows-filter roles ids p ms e) refl

module _ {F : Type 0} (actor : Actor) where
  -- Whoever has a role of the queue may decide a match exactly if the detail view shows it: the checks
  -- of the two endpoints have the same outcome, errors included.
  pub view_and_decide_agree :
      (m : Match) (db : Store F)
      → has_any actor.roles queue_roles ≡ true
      → check_view_access actor m db ≡ check_decide_access actor m db
  unfolding check_view_access check_decide_access
  view_and_decide_agree m db r = ground (arith, queue_role_cases actor.roles r)

  standing_of_access :
      (m : Match) (db : Store F)
      → has_any actor.roles queue_roles ≡ true
      → check_decide_access actor m db ≡ (done tt, db)
      → HasStanding actor m db.memberships
  unfolding check_decide_access
  standing_of_access m db r h =
      ground
        (arith, queue_role_cases actor.roles r, ap (λ (o : Outcome (Unit {0}) × Store F). o.0) h)

  -- A decision that is answered was made by staff, by a facilitator of the match's organisation, or by
  -- a triage facilitator at a triage match.
  pub decide_match-HasStanding :
      (fresh : Fresh) (body : DecideRequest) (match_id : ℕ) (db : Store F) (d : Decided)
      → (decide_match actor fresh body match_id db).0 ≡ done d
      → (m : Match) × (find_match match_id db.tables.matches ≡ some m)
        × HasStanding actor m db.memberships
  unfolding decide_match
  decide_match-HasStanding fresh body i db d =
      let Q = λ (_ : Decided) (_ : Store F).
        (m : Match) × (find_match i db.tables.matches ≡ some m)
        × HasStanding actor m db.memberships in
      After-done (decide_request actor fresh body i) db Q d (
        decide_request-After actor fresh body i db Q λ m c a.
          After-always (decide_loaded actor fresh body m c db)
            (m, a.found, standing_of_access m db a.has_role a.access))

  in_scope_lem :
      (m : Match) (db : Store F)
      → has_any actor.roles queue_roles ≡ true
      → ((has_any actor.roles staff_roles ≡ true)
          ⊎ (in_texts "facilitator" actor.roles && in_texts "triage_facilitator" actor.roles
              ≡ false))
      → in_scope actor.roles (visible_org_ids actor.sub db.memberships) m
        ≡ succeeds (check_view_access actor m db)
  unfolding check_view_access
  in_scope_lem m db r one = ground (arith, queue_role_cases actor.roles r)

  -- The queue lists the open matches that the detail view shows the caller, in the order of the table,
  -- if the caller is not both facilitator and triage facilitator without being staff.
  pub get_queue_shows :
      (db : Store F)
      → has_any actor.roles queue_roles ≡ true
      → ((has_any actor.roles staff_roles ≡ true)
          ⊎ (in_texts "facilitator" actor.roles && in_texts "triage_facilitator" actor.roles
              ≡ false))
      → (get_queue actor db).0
        ≡ done (
            filter
              (λ m. in_queue m.status && succeeds (check_view_access actor m db))
              db.tables.matches)
  unfolding get_queue
  get_queue_shows db r one = rw r (
      ap done (
        queue_rows-filter actor.roles _ (λ m. succeeds (check_view_access actor m db))
          db.tables.matches (λ m. in_scope_lem m db r one)))
