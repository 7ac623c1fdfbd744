-- ===== src/Decide/Keeps.antt =====
-- A property that the three verbs keep is kept by a decision.
use jp_adopt_core.Prelude.{ℕ, String, ◌≡◌, true}
use jp_adopt_core.Models.{Contact}
use jp_adopt_core.Matching.Rows.{Match}
use jp_adopt_core.Http.After.{After, After-atomically, After-map}
use jp_adopt_core.Decide.Rows.{
  Store, Actor, DecideRequest, DecisionVerb, accept, send_back, route_elsewhere, Fresh, in_queue,
}
use jp_adopt_core.Decide.Steps.{
  Accepted, SentBack, Rerouted, accept_match-After, send_back_match-After, reroute_match-After,
}
use jp_adopt_core.Decide.Admission.{Admitted, decide_request-After, decide_loaded-After}
use jp_adopt_core.Decide.Handler.{apply_verb, decide_request, decide_match}

module _ {F : Type 0} (actor : Actor) (fresh : Fresh) (body : DecideRequest) where
  -- A property of the tables that holds before a decision and after each of the three verbs.
  pub record IsKept (match_id : ℕ) (db : Store F) (Inv : Store F → Type 0) : Type 0 where
    pub before : Inv db
    pub by_accept :
        (role : String) (m : Match) (contact : Contact) (db' : Store F)
        → Admitted actor fresh body match_id m contact db
        → in_queue m.status ≡ true
        → Accepted actor fresh body role m contact db db'
        → Inv db'
    pub by_send_back :
        (role : String) (m : Match) (contact : Contact) (db' : Store F)
        → Admitted actor fresh body match_id m contact db
        → in_queue m.status ≡ true
        → SentBack actor fresh body role m contact db db'
        → Inv db'
    pub by_reroute :
        (role : String) (m : Match) (contact : Contact) (db' : Store F)
        → Admitted actor fresh body match_id m contact db
        → in_queue m.status ≡ true
        → Rerouted actor fresh body role m contact db db'
        → Inv db'

  module _ (match_id : ℕ) (db : Store F) (Inv : Store F → Type 0) where
    verb-keeps :
        IsKept match_id db Inv
        → (verb : DecisionVerb) (role : String) (m : Match) (contact : Contact)
        → Admitted actor fresh body match_id m contact db
        → in_queue m.status ≡ true
        → After (λ _ db'. Inv db') (apply_verb actor fresh body verb role m contact db)
    verb-keeps kept accept role m contact a q =
        After-map _ _ (apply_verb actor fresh body accept role m contact db)
          (accept_match-After actor fresh body role m contact db)
          λ n db' h. kept.by_accept role m contact db' a q h.0
    verb-keeps kept send_back role m contact a q =
        After-map _ _ (apply_verb actor fresh body send_back role m contact db)
          (send_back_match-After actor fresh body role m contact db)
          λ n db' h. kept.by_send_back role m contact db' a q h.0
    verb-keeps kept route_elsewhere role m contact a q =
        After-map _ _ (apply_verb actor fresh body route_elsewhere role m contact db)
          (reroute_match-After actor fresh body role m contact db)
          λ n db' h. kept.by_reroute role m contact db' a q h.0

    pub decide_match-keeps :
        IsKept match_id db Inv → Inv (decide_match actor fresh body match_id db).1
    unfolding decide_match
    decide_match-keeps kept =
        After-atomically (decide_request actor fresh body match_id) db Inv kept.before (
          decide_request-After actor fresh body match_id db (λ _. Inv)
            λ m contact a.
              decide_loaded-After actor fresh body m contact db (λ _. Inv)
                (λ q role r. verb-keeps kept body.decision role m contact a q) (λ q r. kept.before))
