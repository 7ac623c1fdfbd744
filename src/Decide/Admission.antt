-- ===== src/Decide/Admission.antt =====
-- What `decide_match` has checked when it reaches its verbs.
use jp_adopt_core.Prelude.{ℕ, String, ◌≡◌, inl, inr, true, false, none, some, arith, Bool-cases}
use jp_adopt_core.Models.{Contact}
use jp_adopt_core.Matching.Rows.{AdopterInterest, Match}
use jp_adopt_core.Http.{done, ◌>>=◌, or_raise, raise_unless, http_error, internal_server_error}
use jp_adopt_core.Http.After.{After, After-bind, After-read, After-or_raise, After-raise_unless}
use jp_adopt_core.Decide.Rows.{
  Store, Actor, DecideRequest, Fresh, validate_route_elsewhere_fields, in_queue, has_any,
  find_match, find_interest, find_contact,
}
use jp_adopt_core.Decide.Access.{queue_roles, pick_actor_role, check_decide_access}
use jp_adopt_core.Decide.Parts.{Decided, is_retry}
use jp_adopt_core.Decide.Handler.{apply_verb, respond, decide_loaded, decide_request}

pub check_decide_access_reads :
    {F : Type 0} (actor : Actor) (m : Match) (db : Store F)
    → (check_decide_access actor m db).1 ≡ db
unfolding check_decide_access
check_decide_access_reads actor m db = ground arith

module _ {F : Type 0} (actor : Actor) (fresh : Fresh) (body : DecideRequest) where
  -- What admitted a decision on a match.
  pub record Admitted (match_id : ℕ) (m : Match) (contact : Contact) (db : Store F) : Type 0 where
    pub valid : validate_route_elsewhere_fields body ≡ true
    pub has_role : has_any actor.roles queue_roles ≡ true
    pub found : find_match match_id db.tables.matches ≡ some m
    pub access : check_decide_access actor m db ≡ (done tt, db)
    pub interest : AdopterInterest
    pub interest_found : find_interest m.adopter_interest_id db.tables.interests ≡ some interest
    pub contact_found : find_contact interest.contact_id db.session.contacts ≡ some contact

  pub decide_request-After :
      (match_id : ℕ) (db : Store F) (Q : Decided → Store F → Type 0)
      → ((m : Match) (contact : Contact)
          → Admitted match_id m contact db
          → After Q (decide_loaded actor fresh body m contact db))
      → After Q (decide_request actor fresh body match_id db)
  unfolding decide_request
  decide_request-After match_id db Q k =
      let load = λ (m : Match) (i : AdopterInterest).
        or_raise (find_contact i.contact_id db.session.contacts)
          (http_error 404 "Contact not found")
        >>= λ contact. decide_loaded actor fresh body m contact in
      let read = λ (m : Match) (_ : Unit {0}).
        or_raise (find_interest m.adopter_interest_id db.tables.interests)
          (http_error 404 "AdopterInterest not found")
        >>= load m in
      let check = λ (m : Match). check_decide_access actor m >>= read m in
      let find = λ (_ : Unit {0}).
        or_raise (find_match match_id db.tables.matches) (http_error 404 "Match not found")
        >>= check in
      let gate = λ (_ : Unit {0}).
        raise_unless (has_any actor.roles queue_roles) (http_error 403 "role_required") >>= find in
      After-raise_unless (validate_route_elsewhere_fields body) (http_error 422 "value_error") gate
        db Q
        λ valid.
          After-raise_unless (has_any actor.roles queue_roles) (http_error 403 "role_required") find
            db Q
            λ role.
              After-or_raise (find_match match_id db.tables.matches)
                (http_error 404 "Match not found") check db Q
                λ m found.
                  After-read (check_decide_access actor m) (read m) db Q
                    (check_decide_access_reads actor m db)
                    λ _ access.
                      After-or_raise (find_interest m.adopter_interest_id db.tables.interests)
                        (http_error 404 "AdopterInterest not found") (load m) db Q
                        λ i i_found.
                          After-or_raise (find_contact i.contact_id db.session.contacts)
                            (http_error 404 "Contact not found")
                            (λ contact. decide_loaded actor fresh body m contact) db Q
                            λ contact c_found. k m contact (record {
                              valid = valid;
                              has_role = role;
                              found = found;
                              access = access;
                              interest = i;
                              interest_found = i_found;
                              contact_found = c_found;
                            })

  -- An open match is decided by its verb, a closed one is answered without a write.
  pub decide_loaded-After :
      (m : Match) (contact : Contact) (db : Store F) (Q : Decided → Store F → Type 0)
      → (in_queue m.status ≡ true
          → (role : String) → pick_actor_role actor.roles queue_roles ≡ some role
          → After
              (λ n db'. After Q (respond actor fresh body m contact n db'))
              (apply_verb actor fresh body body.decision role m contact db))
      → (in_queue m.status ≡ false
          → is_retry body.decision m.status ≡ true
          → After Q (respond actor fresh body m contact none db))
      → After Q (decide_loaded actor fresh body m contact db)
  unfolding decide_loaded
  decide_loaded-After m contact db Q opened closed = elim (Bool-cases (in_queue m.status)) [
    | inl e ↦ rw e (
        let answer = λ (role : String).
          apply_verb actor fresh body body.decision role m contact >>= λ n.
          respond actor fresh body m contact n in
        After-or_raise (pick_actor_role actor.roles queue_roles) internal_server_error answer db Q
          λ role r.
            After-bind (apply_verb actor fresh body body.decision role m contact)
              (λ n. respond actor fresh body m contact n) db _ Q (opened e role r) (λ n db' h. h))
    | inr e ↦ rw e (
        After-raise_unless (is_retry body.decision m.status)
          (http_error 409 "match_already_decided") (λ _. respond actor fresh body m contact none) db
          Q (closed e))
  ]
