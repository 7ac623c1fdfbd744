-- ===== src/Decide/Answers.antt =====
-- What each verb of a decision answers, and what it has written.
use jp_adopt_core.Prelude.{
  ℕ, String, ◌≡◌, ◌≢◌, refl, ◌⊎◌, inl, inr, true, false, none, some, List, [], ◌∷◌, arith,
  if◌then◌else◌, Bool-cases, sym, ap, ◌∙◌,
}
use mathlib.Core.Path.{subst}
use jp_adopt_core.Models.{Contact}
use jp_adopt_core.Outbox.{Session}
use jp_adopt_core.Workflow.States.{AdopterState, adopter_value}
use jp_adopt_core.Workflow.Lookup.{adopter_side}
use jp_adopt_core.Workflow.Transition.{World, transition_adopter, write_transition, moved}
use jp_adopt_core.Workflow.Acceptance.{accepted_run, accepted_has_parts}
use jp_adopt_core.Workflow.Effects.{emit_outbox-contacts}
use jp_adopt_core.Matching.Rows.{Match, MatchStatus}
use jp_adopt_core.Matching.Process.{find_open}
use jp_adopt_core.Http.{done}
use jp_adopt_core.Http.After.{After, After-map, After-done}
use jp_adopt_core.Decide.Rows.{
  Store, Actor, DecisionVerb, accept, send_back, route_elsewhere, DecideRequest, Fresh, in_queue,
  find_match, find_contact, update_match,
}
use jp_adopt_core.Decide.Parts.{
  Decided, current_state, is_matched, or_else, stamp_decision, move_request, rerouted_match,
}
use jp_adopt_core.Decide.Admission.{Admitted, decide_request-After, decide_loaded-After}
use jp_adopt_core.Decide.Invariants.{find_match-own, find_match-id}
use jp_adopt_core.Decide.Steps.{
  accept_match-After, send_back_match-After, reroute_match-After, Moves, Accepted, SentBack,
  Rerouted,
}
use jp_adopt_core.Decide.Handler.{decide_match, decide_request, decide_loaded, apply_verb, respond}
use jp_adopt_core.Decide.Lookups.{
  find_match-update_match, find_match-append, find_open-new, find_contact-update_row,
  find_contact-own,
}
use jp_adopt_core.Decide.Targets.{choose_target_elsewhere}

module _ (actor : Actor) (fresh : Fresh) (body : DecideRequest) where
  -- A move writes its target into the contact's row.
  moved_status :
      (role : String) (c : Contact) (target : AdopterState) (s s' : Session)
      → find_contact c.id s.contacts ≡ some c
      → Moves actor fresh body role c target s s'
      → (x : Contact) × (find_contact c.id s'.contacts ≡ some x)
        × (x.adopter_status ≡ some (adopter_value target))
  unfolding transition_adopter write_transition
  moved_status role c target s s' f (accepted, e) =
      let q = move_request actor fresh body role target in
      let w : World = record { session = s; contact = c } in
      let a = accepted_has_parts adopter_side q w accepted in
      (
        moved adopter_side q c.version c,
        subst
            (λ (t : Session).
              find_contact c.id t.contacts ≡ some (moved adopter_side q c.version c))
            e
            (rw (accepted_run adopter_side q w a)
              (rw emit_outbox-contacts (find_contact-update_row q c.id c.version c s.contacts f))),
        refl,
      )

is_matched_lem : (a : AdopterState) → is_matched a ≡ true → a ≡ AdopterState.matched
is_matched_lem a h = ground arith

not_matched : (a : AdopterState) → is_matched a ≡ false → a ≢ AdopterState.matched
not_matched a h e = ground arith

stamped_row :
    (actor : Actor) (fresh : Fresh) (body : DecideRequest) (st : MatchStatus) (m : Match)
    → (ms ms' : List Match) → ms' ≡ update_match m.id (stamp_decision actor fresh body st) ms
    → find_match m.id ms ≡ some m
    → find_match m.id ms' ≡ some (stamp_decision actor fresh body st m)
stamped_row actor fresh body st m ms ms' e f =
    rw e (find_match-update_match m.id (stamp_decision actor fresh body st) m ms f refl)

module _ {F : Type 0} (actor : Actor) (fresh : Fresh) (body : DecideRequest) where
  -- How the rows and the answer look after each verb, for the match and the contact that it found.
  abbrev pub Answer : DecisionVerb → Match → Contact → Decided → Store F → Type 0
  Answer accept m c d db' =
      ((current_state c.adopter_status ≡ some AdopterState.matched)
        × (d.match.status ≡ MatchStatus.active)
        × (d.contact_adopter_status ≡ some "active")
        × (d.new_match_id ≡ none))
      ⊎ ((current_state c.adopter_status ≢ some AdopterState.matched)
          × (d.match.status ≡ MatchStatus.accepted)
          × (d.contact_adopter_status ≡ some "matched")
          × (d.new_match_id ≡ none))
  Answer send_back m c d db' =
      (d.match.status ≡ MatchStatus.sent_back)
      × (d.contact_adopter_status ≡ some "sent_back")
      × (d.new_match_id ≡ none)
  Answer route_elsewhere m c d db' =
      (new : Match) × (d.match.status ≡ MatchStatus.declined)
      × (d.contact_adopter_status ≡ c.adopter_status)
      × (d.new_match_id ≡ some new.id)
      × (find_open m.adopter_interest_id db'.tables.matches ≡ some new)
      × (new.status ≡ MatchStatus.recommended)
      × (new.facilitator_org_id ≢ m.facilitator_org_id)

  abbrev Shows : Match → Decided → Store F → Type 0
  Shows m d db' = find_match m.id db'.tables.matches ≡ some d.match

  accept_answers :
      (role : String) (m : Match) (c : Contact) (db db' : Store F)
      → find_match m.id db.tables.matches ≡ some m
      → find_contact c.id db.session.contacts ≡ some c
      → Accepted actor fresh body role m c db db'
      → After (λ d s. Shows m d s × Answer accept m c d s) (respond actor fresh body m c none db')
  accept_answers role m c db db' fm fc t =
      let b = is_matched t.current in
      let row =
        stamped_row actor fresh body (if b then MatchStatus.active else MatchStatus.accepted) m
          db.tables.matches db'.tables.matches t.matches_are fm in
      let (x, fx, status) =
        moved_status actor fresh body role c
          (if b then AdopterState.active else AdopterState.matched) db.session t.moved fc t.moves in
      let contact =
        ap (find_contact c.id)
          (ap (λ (s : Session). s.contacts) t.emits ∙ emit_outbox-contacts _ _ _ _)
        ∙ fx in
      rw (row, contact)
        (
          refl,
          elim (Bool-cases b) [
            | inl e ↦ inl (
              t.status_is ∙ ap some (is_matched_lem t.current e),
              ap (λ z. if z then MatchStatus.active else MatchStatus.accepted) e,
              status
                  ∙ ap
                      (λ z.
                        some
                          (adopter_value (if z then AdopterState.active else AdopterState.matched)))
                      e,
              refl,
            )
            | inr e ↦ inr (
              λ h. not_matched t.current e (ap (or_else AdopterState.draft) (sym t.status_is ∙ h)),
              ap (λ z. if z then MatchStatus.active else MatchStatus.accepted) e,
              status
                  ∙ ap
                      (λ z.
                        some
                          (adopter_value (if z then AdopterState.active else AdopterState.matched)))
                      e,
              refl,
            )
          ],
        )

  send_back_answers :
      (role : String) (m : Match) (c : Contact) (db db' : Store F)
      → find_match m.id db.tables.matches ≡ some m
      → find_contact c.id db.session.contacts ≡ some c
      → SentBack actor fresh body role m c db db'
      → After
          (λ d s. Shows m d s × Answer send_back m c d s)
          (respond actor fresh body m c none db')
  send_back_answers role m c db db' fm fc t =
      let row =
        stamped_row actor fresh body MatchStatus.sent_back m db.tables.matches db'.tables.matches
          t.matches_are fm in
      let (x, fx, status) =
        moved_status actor fresh body role c AdopterState.sent_back db.session db'.session fc
          t.moves in
      rw (row, fx) (refl, (refl, status, refl))

  reroute_answers :
      (role : String) (m : Match) (c : Contact) (db db' : Store F)
      → find_match m.id db.tables.matches ≡ some m
      → find_contact c.id db.session.contacts ≡ some c
      → Rerouted actor fresh body role m c db db'
      → After
          (λ d s. Shows m d s × Answer route_elsewhere m c d s)
          (respond actor fresh body m c (some fresh.match_id) db')
  reroute_answers role m c db db' fm fc t =
      let new = rerouted_match fresh body m t.target in
      let declined =
        update_match m.id (stamp_decision actor fresh body MatchStatus.declined)
          db.tables.matches in
      let row =
        ap (find_match m.id) t.matches_are
        ∙ find_match-append m.id (stamp_decision actor fresh body MatchStatus.declined m) declined
            (new ∷ [])
            (stamped_row actor fresh body MatchStatus.declined m db.tables.matches declined refl
              fm) in
      let contact =
        ap (find_contact c.id)
          (ap (λ (s : Session). s.contacts) t.emits ∙ emit_outbox-contacts _ _ _ _)
        ∙ fc in
      let open_row =
        ap (find_open m.adopter_interest_id) t.matches_are
        ∙ find_open-new m.adopter_interest_id new declined t.free (ground arith) in
      rw (row, contact)
        (
          refl,
          (
            new,
            refl,
            refl,
            refl,
            open_row,
            refl,
            choose_target_elsewhere actor fresh body m body.facilitator_org_id db t.target t.chosen,
          ),
        )

  -- The answer, for the rows that the request found.
  abbrev Final : ℕ → Store F → Match → DecisionVerb → Decided → Store F → Type 0
  Final i db m verb d s =
      (c : Contact) × Admitted actor fresh body i m c db
      × (find_match i s.tables.matches ≡ some d.match)
      × Answer verb m c d s

  find_at :
      (i : ℕ) (m : Match) (db s : Store F) (d : Decided)
      → find_match i db.tables.matches ≡ some m
      → Shows m d s
      → find_match i s.tables.matches ≡ some d.match
  find_at i m db s d f h =
      subst (λ k. find_match k s.tables.matches ≡ some d.match)
        (find_match-id i m db.tables.matches f) h

  open_answers :
      (i : ℕ) (db : Store F) (m : Match) (c : Contact)
      → Admitted actor fresh body i m c db
      → (verb : DecisionVerb) (role : String)
      → After
          (λ n db'. After (Final i db m verb) (respond actor fresh body m c n db'))
          (apply_verb actor fresh body verb role m c db)
  open_answers i db m c a accept role =
      After-map _ (λ n db'. After (Final i db m accept) (respond actor fresh body m c n db'))
        (apply_verb actor fresh body accept role m c db)
        (accept_match-After actor fresh body role m c db)
        λ n db' h.
          subst (λ k. After (Final i db m accept) (respond actor fresh body m c k db')) (sym h.1)
            (After-map (λ d s. Shows m d s × Answer accept m c d s) (Final i db m accept)
              (respond actor fresh body m c none db')
              (accept_answers role m c db db' (find_match-own i m db.tables.matches a.found)
                (find_contact-own _ c db.session.contacts a.contact_found) h.0)
              λ d s r. (c, a, find_at i m db s d a.found r.0, r.1))
  open_answers i db m c a send_back role =
      After-map _ (λ n db'. After (Final i db m send_back) (respond actor fresh body m c n db'))
        (apply_verb actor fresh body send_back role m c db)
        (send_back_match-After actor fresh body role m c db)
        λ n db' h.
          subst (λ k. After (Final i db m send_back) (respond actor fresh body m c k db')) (sym h.1)
            (After-map (λ d s. Shows m d s × Answer send_back m c d s) (Final i db m send_back)
              (respond actor fresh body m c none db')
              (send_back_answers role m c db db' (find_match-own i m db.tables.matches a.found)
                (find_contact-own _ c db.session.contacts a.contact_found) h.0)
              λ d s r. (c, a, find_at i m db s d a.found r.0, r.1))
  open_answers i db m c a route_elsewhere role =
      After-map _
        (λ n db'. After (Final i db m route_elsewhere) (respond actor fresh body m c n db'))
        (apply_verb actor fresh body route_elsewhere role m c db)
        (reroute_match-After actor fresh body role m c db)
        λ n db' h.
          subst (λ k. After (Final i db m route_elsewhere) (respond actor fresh body m c k db'))
            (sym h.1)
            (After-map (λ d s. Shows m d s × Answer route_elsewhere m c d s)
              (Final i db m route_elsewhere)
              (respond actor fresh body m c (some fresh.match_id) db')
              (reroute_answers role m c db db' (find_match-own i m db.tables.matches a.found)
                (find_contact-own _ c db.session.contacts a.contact_found) h.0)
              λ d s r. (c, a, find_at i m db s d a.found r.0, r.1))

  -- The answer of a decision on an open match, by its verb: an acceptance makes the match active where
  -- the contact was matched, and else accepted, with the contact active or matched; a return makes
  -- both sent back; a change of organisation declines the match, leaves the contact's status, and adds
  -- a recommended match with another organisation, which is the interest's open match. In each case
  -- the answer shows the match's row.
  pub decide_match_answers :
      (match_id : ℕ) (db : Store F) (d : Decided) (m : Match)
      → find_match match_id db.tables.matches ≡ some m
      → in_queue m.status ≡ true
      → (decide_match actor fresh body match_id db).0 ≡ done d
      → let db' = (decide_match actor fresh body match_id db).1 in
        (c : Contact) × Admitted actor fresh body match_id m c db
        × (find_match match_id db'.tables.matches ≡ some d.match)
        × Answer body.decision m c d db'
  unfolding decide_match
  decide_match_answers i db d m f q =
      let Q = Final i db m body.decision in
      After-done (decide_request actor fresh body i) db Q d (
        decide_request-After actor fresh body i db Q λ x c a.
          subst
            (λ (y : Match).
              Admitted actor fresh body i y c db → After Q (decide_loaded actor fresh body y c db))
            (ap (or_else m) (sym f ∙ a.found))
            (λ b.
              decide_loaded-After actor fresh body m c db Q
                (λ _ role _. open_answers i db m c b body.decision role)
                (λ closed _. absurd (ground (arith, q, closed))))
            a)
