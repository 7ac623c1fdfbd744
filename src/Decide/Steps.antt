-- ===== src/Decide/Steps.antt =====
-- What each verb of `decide_match` has done to the tables when it succeeds.
use jp_adopt_core.Prelude.{
  ℕ, String, ◌≡◌, refl, ◌⊎◌, inl, inr, Bool, true, false, not, Option, none, some, List, [], ◌∷◌,
  ◌++◌, if◌then◌else◌, arith, ◌&&◌,
}
use jp_adopt_core.Models.{Contact}
use jp_adopt_core.Outbox.{Session, emit_outbox}
use jp_adopt_core.Workflow.States.{AdopterState}
use jp_adopt_core.Workflow.Transition.{ok, err, World, Result, transition_adopter}
use jp_adopt_core.Matching.Rows.{FacilitatingOrg, Match, MatchStatus}
use jp_adopt_core.Matching.Process.{MatchAttempt, find_open}
use jp_adopt_core.Http.{
  done, fail, Outcome, Handler, raise, pure, ◌>>◌, ◌>>=◌, http_error, internal_server_error,
  map_state_machine_exception,
}
use jp_adopt_core.Http.After.{After, After-read, After-or_raise}
use jp_adopt_core.Decide.Rows.{
  Store, Actor, DecideRequest, Fresh, is_some, is_reserved, update_match,
}
use jp_adopt_core.Decide.Parts.{
  current_state, is_matched, move_request, stamp_decision, accepted_payload, accepted_event,
  event_routed, routed_payload, rerouted_match,
}
use jp_adopt_core.Decide.Capacity.{try_increment_capacity, try_decrement_capacity}
use jp_adopt_core.Decide.Handler.{
  run_transition, accept_match, send_back_match, reroute_match, add_match, stamp, set_orgs, reserve,
  release, when, emit, choose_target, insert_match, add_attempt, override_attempt,
}

-- A slot is reserved if the test holds; else the table is as before.
abbrev pub Reserves : ℕ → Bool → ℕ → List FacilitatingOrg → List FacilitatingOrg → Type 0
Reserves now b org_id orgs orgs' =
    ((b ≡ true) × (try_increment_capacity now org_id orgs ≡ (true, orgs')))
    ⊎ ((b ≡ false) × (orgs' ≡ orgs))

abbrev pub released : Bool → ℕ → List FacilitatingOrg → List FacilitatingOrg
released b org_id orgs = if b then try_decrement_capacity org_id orgs else orgs

-- The contact's transition was accepted, and left this session.
abbrev pub Moves :
    Actor → Fresh → DecideRequest → String → Contact → AdopterState → Session → Session → Type 0
Moves actor fresh body role contact target s s' =
    let r =
      transition_adopter (move_request actor fresh body role target)
        (record { session = s; contact = contact }) in
    (r.0 ≡ ok tt) × (r.1.session ≡ s')

module _ {F : Type 0} (actor : Actor) (fresh : Fresh) (body : DecideRequest) where
  run_transition-bind :
      {B : Type 0} (role : String) (contact : Contact) (target : AdopterState)
      → (f : Unit {0} → Handler (Store F) B) (db : Store F) (Q : B → Store F → Type 0)
      → ((s : Session)
          → Moves actor fresh body role contact target db.session s
          → After Q (f tt (record db { session = s })))
      → After Q ((run_transition actor fresh body role contact target >>= f) db)
  unfolding run_transition
  run_transition-bind role contact target f db Q k =
      let w : World = record { session = db.session; contact = contact } in
      go (transition_adopter (move_request actor fresh body role target) w) refl
    where
      go :
          (r : Result (Unit {0}) × World)
          → transition_adopter
              (move_request actor fresh body role target)
              (record { session = db.session; contact = contact })
            ≡ r
          → After Q (
              ((λ db'. elim r.0 as (λ _. Outcome (Unit {0}) × Store F) [
                | ok _ ↦ (done tt, record db' { session = r.1.session })
                | err e ↦
                    (fail (map_state_machine_exception e), record db' { session = r.1.session })
              ])
                  >>= f)
                db)
      go (ok _, w') e = k w'.session (rw e refl, rw e refl)
      go (err _, w') e = tt

  reserve-bind :
      {B : Type 0} (b : Bool) (org_id : ℕ)
      → (f : Unit {0} → Handler (Store F) B) (db : Store F) (Q : B → Store F → Type 0)
      → ((orgs : List FacilitatingOrg)
          → Reserves fresh.now b org_id db.tables.orgs orgs
          → After Q (f tt (set_orgs actor fresh body orgs db)))
      → After Q ((when actor fresh body b (reserve actor fresh body org_id) >>= f) db)
  unfolding when reserve
  reserve-bind false org_id f db Q k = k db.tables.orgs (inr (refl, refl))
  reserve-bind true org_id f db Q k =
      go (try_increment_capacity fresh.now org_id db.tables.orgs) refl
    where
      go :
          (r : Bool × List FacilitatingOrg)
          → try_increment_capacity fresh.now org_id db.tables.orgs ≡ r
          → After Q (
              ((λ db'. if r.0 then (done tt, set_orgs actor fresh body r.1 db') else (
                fail (http_error 409 "capacity_unavailable"),
                set_orgs actor fresh body r.1 db',
              ))
                  >>= f)
                db)
      go (true, orgs) e = k orgs (inl (refl, e))
      go (false, orgs) e = tt

  release-bind :
      {B : Type 0} (b : Bool) (org_id : ℕ)
      → (f : Unit {0} → Handler (Store F) B) (db : Store F) (Q : B → Store F → Type 0)
      → After Q (f tt (set_orgs actor fresh body (released b org_id db.tables.orgs) db))
      → After Q ((when actor fresh body b (release actor fresh body org_id) >>= f) db)
  unfolding when release
  release-bind false org_id f db Q k = k
  release-bind true org_id f db Q k = k

  -- What an acceptance has done.
  pub record Accepted (role : String) (m : Match) (contact : Contact) (db db' : Store F)
      : Type 0 where
    pub current : AdopterState
    pub status_is : current_state contact.adopter_status ≡ some current
    pub moved : Session
    pub moves :
        Moves actor fresh body role contact
          (if is_matched current then AdopterState.active else AdopterState.matched)
          db.session
          moved
    pub emits :
        db'.session
        ≡ (emit_outbox
            (accepted_event (is_matched current))
            (accepted_payload actor fresh (accepted_event (is_matched current)) role m contact)
            fresh.event_id
            moved).1
    pub matches_are :
        db'.tables.matches
        ≡ update_match m.id
            (stamp_decision actor fresh body
              (if is_matched current then MatchStatus.active else MatchStatus.accepted))
            db.tables.matches
    pub reserves :
        Reserves fresh.now
          (not (is_matched current) && not m.is_manual_override)
          m.facilitator_org_id
          db.tables.orgs
          db'.tables.orgs

  pub accept_match-After :
      (role : String) (m : Match) (contact : Contact) (db : Store F)
      → After
          (λ n db'. Accepted role m contact db db' × (n ≡ none))
          (accept_match actor fresh body role m contact db)
  unfolding accept_match
  accept_match-After role m contact db =
      let Q = λ (n : Option ℕ) (db' : Store F). Accepted role m contact db db' × (n ≡ none) in
      let answer = λ (c : AdopterState) (_ : Unit {0}).
        emit actor fresh body (accepted_event (is_matched c))
          (accepted_payload actor fresh (accepted_event (is_matched c)) role m contact)
        >> pure none in
      let write = λ (c : AdopterState) (_ : Unit {0}).
        stamp actor fresh body m (if is_matched c then MatchStatus.active else MatchStatus.accepted)
        >> (when actor fresh body (not (is_matched c) && not m.is_manual_override)
              (reserve actor fresh body m.facilitator_org_id)
            >>= answer c) in
      let move = λ (c : AdopterState).
        run_transition actor fresh body role contact
          (if is_matched c then AdopterState.active else AdopterState.matched)
        >>= write c in
      After-or_raise (current_state contact.adopter_status) internal_server_error move db Q
        λ current e.
          run_transition-bind role contact
            (if is_matched current then AdopterState.active else AdopterState.matched)
            (write current) db Q
            λ moved mv.
              reserve-bind (not (is_matched current) && not m.is_manual_override)
                m.facilitator_org_id (answer current) _ Q
                λ orgs r. (
                  record {
                    current = current;
                    status_is = e;
                    moved = moved;
                    moves = mv;
                    emits = refl;
                    matches_are = refl;
                    reserves = r;
                  },
                  refl,
                )

  -- What a return to the manager has done.
  pub record SentBack (role : String) (m : Match) (contact : Contact) (db db' : Store F)
      : Type 0 where
    pub moves : Moves actor fresh body role contact AdopterState.sent_back db.session db'.session
    pub matches_are :
        db'.tables.matches
        ≡ update_match m.id
            (stamp_decision actor fresh body MatchStatus.sent_back)
            db.tables.matches
    pub releases :
        db'.tables.orgs
        ≡ released
            (is_reserved m.status && not m.is_manual_override)
            m.facilitator_org_id
            db.tables.orgs

  pub send_back_match-After :
      (role : String) (m : Match) (contact : Contact) (db : Store F)
      → After
          (λ n db'. SentBack role m contact db db' × (n ≡ none))
          (send_back_match actor fresh body role m contact db)
  unfolding send_back_match
  send_back_match-After role m contact db =
      let Q = λ (n : Option ℕ) (db' : Store F). SentBack role m contact db db' × (n ≡ none) in
      let write = λ (_ : Unit {0}).
        stamp actor fresh body m MatchStatus.sent_back
        >> (when actor fresh body (is_reserved m.status && not m.is_manual_override)
              (release actor fresh body m.facilitator_org_id)
            >> pure none) in
      run_transition-bind role contact AdopterState.sent_back write db Q λ moved mv.
        release-bind (is_reserved m.status && not m.is_manual_override) m.facilitator_org_id
          (λ _. pure none) _ Q (record { moves = mv; matches_are = refl; releases = refl }, refl)

  -- What a change of organisation has done.
  pub record Rerouted (role : String) (m : Match) (contact : Contact) (db db' : Store F)
      : Type 0 where
    pub target : ℕ
    pub chosen : choose_target actor fresh body m body.facilitator_org_id db ≡ (done target, db)
    pub emits :
        db'.session
        ≡ (emit_outbox event_routed
            (routed_payload actor fresh body role m contact target)
            fresh.event_id
            db.session).1
    pub free :
        find_open m.adopter_interest_id (
          update_match m.id
            (stamp_decision actor fresh body MatchStatus.declined)
            db.tables.matches)
        ≡ none
    pub matches_are :
        db'.tables.matches
        ≡ update_match m.id (stamp_decision actor fresh body MatchStatus.declined) db.tables.matches
          ++ rerouted_match fresh body m target ∷ []
    pub reserves :
        Reserves fresh.now
          (is_reserved m.status && not (is_some body.facilitator_org_id))
          target
          (released
            (is_reserved m.status && not m.is_manual_override)
            m.facilitator_org_id
            db.tables.orgs)
          db'.tables.orgs

  choose_target_reads :
      (m : Match) (o : Option ℕ) (db : Store F) → (choose_target actor fresh body m o db).1 ≡ db
  unfolding choose_target
  choose_target_reads m o db = ground arith

  insert_match-bind :
      {B : Type 0} (m : Match) (f : Unit {0} → Handler (Store F) B) (db : Store F)
      → (Q : B → Store F → Type 0)
      → (find_open m.adopter_interest_id db.tables.matches ≡ none
          → After Q (f tt (add_match actor fresh body m db).1))
      → After Q ((insert_match actor fresh body m >>= f) db)
  unfolding insert_match
  insert_match-bind m f db Q k = go (find_open m.adopter_interest_id db.tables.matches) k
    where
      go :
          (o : Option Match)
          → (o ≡ none → After Q (f tt (add_match actor fresh body m db).1))
          → After Q (
              ((λ db'. elim o as (λ _. Outcome (Unit {0}) × Store F) [
                | none ↦ add_match actor fresh body m db'
                | some _ ↦ raise internal_server_error db'
              ])
                  >>= f)
                db)
      go none k' = k' refl
      go (some _) k' = tt

  attempt-bind :
      {B : Type 0} (b : Bool) (a : MatchAttempt F)
      → (f : Unit {0} → Handler (Store F) B) (db : Store F) (Q : B → Store F → Type 0)
      → ((attempts : List (MatchAttempt F))
          → After Q (f tt (record db { tables = record db.tables { attempts = attempts } })))
      → After Q ((when actor fresh body b (add_attempt actor fresh body a) >>= f) db)
  unfolding when
  attempt-bind false a f db Q k = k db.tables.attempts
  attempt-bind true a f db Q k = k (db.tables.attempts ++ a ∷ [])

  pub reroute_match-After :
      (role : String) (m : Match) (contact : Contact) (db : Store F)
      → After
          (λ n db'. Rerouted role m contact db db' × (n ≡ some fresh.match_id))
          (reroute_match actor fresh body role m contact db)
  unfolding reroute_match
  reroute_match-After role m contact db =
      let Q = λ (n : Option ℕ) (db' : Store F).
        Rerouted role m contact db db' × (n ≡ some fresh.match_id) in
      let insert = λ (t : ℕ) (_ : Unit {0}).
        emit actor fresh body event_routed (routed_payload actor fresh body role m contact t)
        >> (insert_match actor fresh body (rerouted_match fresh body m t)
            >> pure (some fresh.match_id)) in
      let note = λ (t : ℕ) (_ : Unit {0}).
        when actor fresh body (is_some body.facilitator_org_id)
          (add_attempt actor fresh body (override_attempt actor fresh body m contact t))
        >>= insert t in
      let take = λ (t : ℕ) (_ : Unit {0}).
        when actor fresh body (is_reserved m.status && not (is_some body.facilitator_org_id))
          (reserve actor fresh body t)
        >>= note t in
      let write = λ (t : ℕ).
        stamp actor fresh body m MatchStatus.declined
        >> (when actor fresh body (is_reserved m.status && not m.is_manual_override)
              (release actor fresh body m.facilitator_org_id)
            >>= take t) in
      After-read (choose_target actor fresh body m body.facilitator_org_id) write db Q
        (choose_target_reads m body.facilitator_org_id db)
        λ t c.
          release-bind (is_reserved m.status && not m.is_manual_override) m.facilitator_org_id
            (take t) _ Q
            (reserve-bind (is_reserved m.status && not (is_some body.facilitator_org_id)) t (note t)
              _ Q
              λ orgs r.
                attempt-bind (is_some body.facilitator_org_id)
                  (override_attempt actor fresh body m contact t) (insert t) _ Q
                  λ attempts.
                    insert_match-bind (rerouted_match fresh body m t)
                      (λ _. pure (some fresh.match_id)) _ Q
                      λ free. (
                        record {
                          target = t;
                          chosen = c;
                          emits = refl;
                          free = free;
                          matches_are = refl;
                          reserves = r;
                        },
                        refl,
                      ))
