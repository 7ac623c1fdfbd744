-- ===== src/TransitionEndpoint/Scope.antt =====
-- Who may move a contact through the endpoint.
use jp_adopt_core.Prelude.{
  ℕ, String, ◌≡◌, refl, sym, ◌⊎◌, inl, inr, true, some, arith, Bool-cases, Option-cases, List, [],
  ◌∷◌, ◌&&◌, ◌==◌, ◌=ₛ◌, ==_iff, =ₛ_iff, in_ids, All,
}
use mathlib.Core.List.{Memᴰ}
use jp_adopt_core.Matching.Rows.{
  AdopterInterest, Match, MatchStatus, recommended, accepted, active, triage, is_open,
}
use jp_adopt_core.Models.{Contact}
use jp_adopt_core.Http.{done, ◌>>=◌, or_raise, http_error}
use jp_adopt_core.Http.After.{
  After-always, After-read, After-or_raise, After-raise_unless, After-done,
}
use jp_adopt_core.Decide.Rows.{
  Store, Actor, Fresh, has_any, visible_org_ids, find_contact, find_interest,
}
use jp_adopt_core.Decide.Access.{staff_roles}
use jp_adopt_core.TransitionEndpoint.{
  TransitionRequest, TransitionResponse, workflow_roles, is_interest_of, open_match_orgs, overlaps,
  is_empty, check_scope, assert_facilitator_org_scope, move, refreshed, transition_request,
  post_transition,
}

-- A match that is recommended, accepted, active or in triage, for an interest of the contact.
abbrev pub IsOpenMatch : List AdopterInterest → ℕ → Match → Type 0
IsOpenMatch interests contact_id m =
    ((m.status ≡ recommended) ⊎ (m.status ≡ accepted) ⊎ (m.status ≡ active) ⊎ (m.status ≡ triage))
    × (i : AdopterInterest) × (find_interest m.adopter_interest_id interests ≡ some i)
    × (i.contact_id ≡ contact_id)

-- Staff, a member of the organisation of an open match of the contact, or a contact without one.
abbrev pub IsInScope : {F : Type 0} → Actor → ℕ → Store F → Type 0
IsInScope actor contact_id db =
    (has_any actor.roles staff_roles ≡ true)
    ⊎ ((m : Match) × Memᴰ m db.tables.matches
        × IsOpenMatch db.tables.interests contact_id m
        × Memᴰ (actor.sub, m.facilitator_org_id) db.memberships)
    ⊎ All (λ m. IsOpenMatch db.tables.interests contact_id m → ⊥) db.tables.matches

open_statuses :
    (s : MatchStatus)
    → is_open s ≡ true
    → (s ≡ recommended) ⊎ (s ≡ accepted) ⊎ (s ≡ active) ⊎ (s ≡ triage)
open_statuses recommended h = inl refl
open_statuses accepted h = inr (inl refl)
open_statuses active h = inr (inr (inl refl))
open_statuses triage h = inr (inr (inr refl))
open_statuses _ h = absurd (ground arith)

module _ (contact_id : ℕ) (interests : List AdopterInterest) where
  IsOpenMatch-of_tests :
      (m : Match)
      → (is_interest_of contact_id (find_interest m.adopter_interest_id interests)
          && is_open m.status)
        ≡ true
      → IsOpenMatch interests contact_id m
  IsOpenMatch-of_tests m h = elim (Option-cases (find_interest m.adopter_interest_id interests)) [
    | inl e ↦ absurd (cc (rw e at h))
    | inr (i, e) ↦
        let h' : ((i.contact_id == contact_id) && is_open m.status) ≡ true = (rw e at h) in
        (
          open_statuses m.status (ground arith),
          i,
          e,
          (==_iff i.contact_id contact_id).0 (ground arith),
        )
  ]

  tests-of_IsOpenMatch :
      (m : Match)
      → IsOpenMatch interests contact_id m
      → (is_interest_of contact_id (find_interest m.adopter_interest_id interests)
          && is_open m.status)
        ≡ true
  tests-of_IsOpenMatch m (s, i, e, c) = rw (e, (==_iff i.contact_id contact_id).1 c) (is_open-of s)
    where
      is_open-of :
          (m.status ≡ recommended)
            ⊎ (m.status ≡ accepted)
            ⊎ (m.status ≡ active)
            ⊎ (m.status ≡ triage)
          → is_open m.status ≡ true
      is_open-of (inl e') = rw e' refl
      is_open-of (inr (inl e')) = rw e' refl
      is_open-of (inr (inr (inl e'))) = rw e' refl
      is_open-of (inr (inr (inr e'))) = rw e' refl

  -- An organisation of the list is that of an open match of the contact.
  open_match_orgs-has :
      (ms : List Match) (org_id : ℕ)
      → in_ids org_id (open_match_orgs contact_id interests ms) ≡ true
      → (m : Match) × Memᴰ m ms
        × IsOpenMatch interests contact_id m
        × (m.facilitator_org_id ≡ org_id)
  open_match_orgs-has [] org_id h = absurd (ground arith)
  open_match_orgs-has (m ∷ ms) org_id h =
      elim (Bool-cases (
        is_interest_of contact_id (find_interest m.adopter_interest_id interests)
        && is_open m.status)) [
          | inr e ↦
              let (n, there, open_, is) = open_match_orgs-has ms org_id (rw e at h) in
              (n, Memᴰ.tail there, open_, is)
          | inl e ↦ elim (Bool-cases (org_id == m.facilitator_org_id)) [
            | inl same ↦ (
              m,
              Memᴰ.head refl,
              IsOpenMatch-of_tests m e,
              sym ((==_iff org_id m.facilitator_org_id).0 same),
            )
            | inr other ↦
                let h' : in_ids org_id (open_match_orgs contact_id interests ms) ≡ true =
                  (rw (e, other) at h) in
                let (n, there, open_, is) = open_match_orgs-has ms org_id h' in
                (n, Memᴰ.tail there, open_, is)
          ]
        ]

  -- An empty list is that of a contact without an open match.
  no-IsOpenMatch :
      (ms : List Match)
      → is_empty (open_match_orgs contact_id interests ms) ≡ true
      → All (λ m. IsOpenMatch interests contact_id m → ⊥) ms
  no-IsOpenMatch [] h = tt
  no-IsOpenMatch (m ∷ ms) h =
      elim (Bool-cases (
        is_interest_of contact_id (find_interest m.adopter_interest_id interests)
        && is_open m.status)) [
          | inl e ↦ absurd (cc (rw e at h))
          | inr e ↦ ((λ o. cc (e, tests-of_IsOpenMatch m o)), no-IsOpenMatch ms (rw e at h))
        ]

  -- Two overlapping lists: a membership in the organisation of an open match.
  overlapping_match :
      (sub : String) (memberships : List (String × ℕ)) (ms : List Match)
      → overlaps (visible_org_ids sub memberships) (open_match_orgs contact_id interests ms) ≡ true
      → (m : Match) × Memᴰ m ms
        × IsOpenMatch interests contact_id m
        × Memᴰ (sub, m.facilitator_org_id) memberships
  overlapping_match sub [] ms h = absurd (ground arith)
  overlapping_match sub ((user, org_id) ∷ rest) ms h = elim (Bool-cases (user =ₛ sub)) [
    | inr other ↦
        let (m, there, open_, member) = overlapping_match sub rest ms (rw other at h) in
        (m, there, open_, Memᴰ.tail member)
    | inl same ↦ elim (Bool-cases (in_ids org_id (open_match_orgs contact_id interests ms))) [
      | inl found ↦
          let (m, there, open_, is) = open_match_orgs-has ms org_id found in
          let is_sub : user ≡ sub = (=ₛ_iff user sub).0 same in
          (m, there, open_, Memᴰ.head (λ i. (sym is_sub i, is i)))
      | inr missing ↦
          let (m, there, open_, member) = overlapping_match sub rest ms (rw (same, missing) at h) in
          (m, there, open_, Memᴰ.tail member)
    ]
  ]

check_scope_reads :
    {F : Type 0} (actor : Actor) (i : ℕ) (db : Store F) → (check_scope actor i db).1 ≡ db
unfolding check_scope
check_scope_reads actor i db = ground arith

check_scope-IsInScope :
    {F : Type 0} (actor : Actor) (i : ℕ) (db : Store F)
    → check_scope actor i db ≡ (done tt, db)
    → IsInScope actor i db
unfolding check_scope assert_facilitator_org_scope
check_scope-IsInScope actor i db h =
    let orgs = open_match_orgs i db.tables.interests db.tables.matches in
    elim (Bool-cases (has_any actor.roles staff_roles)) [
      | inl staff ↦ inl staff
      | inr other ↦
          let h' = rw other at h in
          elim (Bool-cases (is_empty orgs)) [
            | inl e ↦ inr (inr (no-IsOpenMatch i db.tables.interests db.tables.matches e))
            | inr e ↦ elim (Bool-cases (overlaps (visible_org_ids actor.sub db.memberships) orgs)) [
              | inl o ↦ inr (
                  inl (
                    overlapping_match i db.tables.interests actor.sub db.memberships
                      db.tables.matches o))
              | inr o ↦ absurd (ground (arith, (rw (e, o) at h')))
            ]
          ]
    ]

-- A transition that is answered was made by a caller with one of the workflow's roles: by staff; or by a
-- member of an organisation that has a recommended, accepted, active or triage match for an interest of
-- the contact; or it concerned a contact without such a match.
pub post_transition-IsInScope :
    {F : Type 0} (actor : Actor) (fresh : Fresh) (body : TransitionRequest) (contact_id : ℕ)
    → (db : Store F) (d : TransitionResponse)
    → (post_transition actor fresh body contact_id db).0 ≡ done d
    → (has_any actor.roles workflow_roles ≡ true) × IsInScope actor contact_id db
unfolding post_transition transition_request
post_transition-IsInScope {F} actor fresh body i db d =
    let Q = λ (_ : TransitionResponse) (_ : Store F).
      (has_any actor.roles workflow_roles ≡ true) × IsInScope actor i db in
    let finish = λ (c : Contact) (_ : Unit {0}).
      move actor fresh body body.kind c >>= λ _. refreshed actor fresh body i in
    let check = λ (c : Contact). check_scope actor i >>= finish c in
    let find = λ (_ : Unit {0}).
      or_raise (find_contact i db.session.contacts) (http_error 404 "Contact not found")
      >>= check in
    After-done (transition_request actor fresh body i) db Q d (
      After-raise_unless (has_any actor.roles workflow_roles) (http_error 403 "role_required") find
        db Q
        λ role.
          After-or_raise (find_contact i db.session.contacts) (http_error 404 "Contact not found")
            check db Q
            λ c _.
              After-read (check_scope actor i) (finish c) db Q (check_scope_reads actor i db)
                λ _ passed.
                  After-always (finish c tt db) (role, check_scope-IsInScope actor i db passed))
