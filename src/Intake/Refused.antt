-- ===== src/Intake/Refused.antt =====
-- Submissions that select an unknown people group: who is refused, and what the refusal leaves.
use jp_adopt_core.Prelude.{
  ℕ, String, ◌≡◌, refl, sym, ◌∙◌, ap, Bool, true, false, none, some, List, [], ◌∷◌, ◌++◌,
  if◌then◌else◌, map, Bool-cases, inl, inr, arith, not, ◌&&◌,
}
use mathlib.Core.Path.{subst}
use jp_adopt_core.Models.{Contact, FpgInterest}
use jp_adopt_core.Text.{Text, text_eq_iff}
use jp_adopt_core.Magic.Rows.{normalize_email}
use jp_adopt_core.Intake.Rows.{
  Desk, Submission, Import, Fresh, Settings, Failure, invalid, Result, ok, err, Action, ◌>>=◌, ◌>>◌,
  pure,
}
use jp_adopt_core.Intake.Email.{email_sanity}
use jp_adopt_core.Intake.Contacts.{
  adopter, find_by_email, new_contact, resolve_contact, touch, write_contact, has_email,
}
use jp_adopt_core.Intake.Process.{
  IntakeOutcome, unknown_people_id3s, message_of, raise_missing, create_interests, select_interests,
  status_is, adopter_interests, accept_adopter, adopt, finish, announce, process_adoption_payload,
  event_submission_received,
}
use jp_adopt_core.Intake.Request.{Answer, reply, crash, respond}
use jp_adopt_core.Intake.Returns.{Returns, Returns-map, bind-ok, Known}
use jp_adopt_core.Intake.Outcome.{event_types}
use jp_adopt_core.Intake.Found.{
  with_contacts, opted_in, resolve_new, resolve_known, is_blocked, Answered, adoption_answers_alike,
}

bind-err :
    {A B : Type 0} (m : Action A) (f : A → Action B) (d d' : Desk) (e : Failure)
    → m d ≡ (err e, d')
    → (m >>= f) d ≡ (err e, d')
bind-err {A} {B} m f d d' e h =
    ap
      (λ (r : Result A × Desk). elim r.0 as (λ _. Result B × Desk) [
        | ok x ↦ f x r.1
        | err x ↦ (err x, r.1)
      ])
      h

-- The refusal of codes.
abbrev pub refusal : Settings → List String → Failure
refusal cfg missing =
    invalid (message_of cfg missing)
      (("fpg_selections", map (cfg.concat "Unknown people_id3: ") missing) ∷ [])

module _ (cfg : Settings) (im : Import) (fresh : Fresh) (p : Submission) (code : String)
    (rest : List String) where
  select_missing :
      (i : ℕ) (sels : List FpgInterest) (d : Desk)
      → unknown_people_id3s cfg.strip d.fpgs sels ≡ code ∷ rest
      → select_interests cfg fresh i sels d ≡ (err (refusal cfg (code ∷ rest)), d)
  select_missing i sels d h =
      bind-err (raise_missing cfg (unknown_people_id3s cfg.strip d.fpgs sels))
        (λ _. create_interests fresh i 0 sels) d d (refusal cfg (code ∷ rest))
        (ap (λ missing. raise_missing cfg missing d) h)

  accept_missing :
      (c : Contact) (created : Bool) (d : Desk)
      → unknown_people_id3s cfg.strip d.fpgs p.fpg_selections ≡ code ∷ rest
      → accept_adopter cfg im fresh p c created d ≡ (err (refusal cfg (code ∷ rest)), d)
  accept_missing c created d h = go p.fpg_selections h
    where
      go :
          (sels : List FpgInterest)
          → unknown_people_id3s cfg.strip d.fpgs sels ≡ code ∷ rest
          → (adopter_interests cfg fresh c sels >>= λ r.
                finish adopter im.request_id fresh p none r.0 created r.1 >>= λ o.
                announce fresh r.0 created >> pure o)
              d
            ≡ (err (refusal cfg (code ∷ rest)), d)
      go [] k = absurd (unfold unknown_people_id3s in cc k)
      go (sel ∷ sels) k =
          bind-err (adopter_interests cfg fresh c (sel ∷ sels))
            (λ r. finish adopter im.request_id fresh p none r.0 created r.1 >>= λ o.
              announce fresh r.0 created >> pure o)
            d d (refusal cfg (code ∷ rest))
            (bind-err (select_interests cfg fresh c.id (sel ∷ sels)) (λ ids. pure (c, ids)) d d
              (refusal cfg (code ∷ rest)) (select_missing c.id (sel ∷ sels) d k))

  adopt_missing :
      (email : Text) (c : Contact) (created : Bool) (d : Desk)
      → unknown_people_id3s cfg.strip d.fpgs p.fpg_selections ≡ code ∷ rest
      → status_is "do_not_engage" c.adopter_status ≡ false
      → adopt cfg im fresh email p (c, created) d ≡ (err (refusal cfg (code ∷ rest)), d)
  adopt_missing email c created d h b = rw (b, adopt) (accept_missing c created d h)

-- The status code of an answer, 500 for a failure of the handler.
abbrev pub status_code_of : Answer → ℕ
status_code_of (reply r) = r.status_code
status_code_of (crash e) = 500

abbrev pub http_status : Result IntakeOutcome × Desk → ℕ
http_status (r, d) = status_code_of (respond 0 r)

module _ (cfg : Settings) (im : Import) (fresh : Fresh) (p : Submission) (code : String)
    (rest : List String) (d : Desk)
    (missing : unknown_people_id3s cfg.strip d.fpgs p.fpg_selections ≡ code ∷ rest)
    (sane : email_sanity cfg.unicode (normalize_email cfg.unicode p.email) ≡ true) where
  abbrev sender : Text
  sender = normalize_email cfg.unicode p.email

  adopt_status :
      (c : Contact) (d' : Desk)
      → unknown_people_id3s cfg.strip d'.fpgs p.fpg_selections ≡ code ∷ rest
      → http_status (adopt cfg im fresh sender p (c, false) d')
        ≡ (if status_is "do_not_engage" c.adopter_status then 201 else 400)
  adopt_status c d' h = elim (Bool-cases (status_is "do_not_engage" c.adopter_status)) [
    | inl b ↦ rw (b, adopt)
    | inr b ↦
        ap http_status (adopt_missing cfg im fresh p code rest sender c false d' h b) ∙ rw b refl
  ]

  via :
      (c : Contact) (created : Bool) (d' : Desk)
      → resolve_contact cfg adopter im fresh sender p d ≡ (ok (c, created), d')
      → process_adoption_payload cfg im fresh p d ≡ adopt cfg im fresh sender p (c, created) d'
  unfolding process_adoption_payload
  via c created d' e = rw sane (
      bind-ok (resolve_contact cfg adopter im fresh sender p) (adopt cfg im fresh sender p) d d'
        (c, created) e)

  -- An unknown code of a people group tells a blocked contact from another: an adoption with such a
  -- code by a contact that is there is answered by 201 if the contact is blocked, and by 400 if not.
  pub unknown_code_tells :
      (c : Contact)
      → find_by_email (normalize_email cfg.unicode p.email) d.session.contacts ≡ some c
      → http_status (process_adoption_payload cfg im fresh p d)
        ≡ (if is_blocked (some c) then 201 else 400)
  unknown_code_tells c known = elim (Bool-cases (p.newsletter_opt_in && not c.newsletter_opt_in)) [
    | inl b ↦
        ap http_status (
          via (opted_in c) false
            (with_contacts (write_contact fresh.now (opted_in c) d.session.contacts) d)
            (resolve_known cfg adopter im fresh sender p d c known ∙ rw (b, touch)))
        ∙ adopt_status (opted_in c) _ missing
    | inr b ↦
        ap http_status
          (via c false d (resolve_known cfg adopter im fresh sender p d c known ∙ rw (b, touch)))
        ∙ adopt_status c d missing
  ]

  abbrev newcomer : Contact
  newcomer = new_contact cfg adopter im fresh sender p

  abbrev left_behind : Desk
  left_behind = with_contacts (d.session.contacts ++ newcomer ∷ []) d

  refused :
      im.source_id ≡ none
      → find_by_email sender d.session.contacts ≡ none
      → process_adoption_payload cfg im fresh p d ≡ (err (refusal cfg (code ∷ rest)), left_behind)
  refused local unknown =
      via newcomer true left_behind (resolve_new cfg adopter im fresh sender p d local unknown)
      ∙ adopt_missing cfg im fresh p code rest sender newcomer true left_behind missing refl

  find-append :
      (cs : List Contact) (c : Contact)
      → find_by_email sender cs ≡ none
      → has_email sender c.email_normalized ≡ true
      → find_by_email sender (cs ++ c ∷ []) ≡ some c
  find-append [] c h e = rw e
  find-append (x ∷ cs) c h e = ground (arith, find-append cs c)

  -- An adoption by a new address that selects an unknown code is refused, but the contact stays: a
  -- corrected adoption of the same address, outside a suppression scope, is then accepted with the
  -- event of the submission alone, so that the contact is never welcomed.
  pub refused_is_not_welcomed :
      (im' : Import) (fresh' : Fresh) (q : Submission)
      → im.source_id ≡ none
      → im'.source_id ≡ none
      → d.session.active ≡ none
      → find_by_email (normalize_email cfg.unicode p.email) d.session.contacts ≡ none
      → normalize_email cfg.unicode q.email ≡ normalize_email cfg.unicode p.email
      → Known cfg.strip d.fpgs q.fpg_selections
      → let (r, d1) = process_adoption_payload cfg im fresh p d in
        (r ≡ err (refusal cfg (code ∷ rest)))
        × Returns
            (λ _ d2. event_types d2 ≡ event_types d1 ++ event_submission_received ∷ [])
            (process_adoption_payload cfg im' fresh' q d1)
  refused_is_not_welcomed im' fresh' q local local' active unknown same known =
      let there : find_by_email (normalize_email cfg.unicode q.email) left_behind.session.contacts
          ≡ some newcomer =
        rw same
          (find-append d.session.contacts newcomer unknown ((text_eq_iff sender sender).1 refl)) in
      let answered =
        adoption_answers_alike cfg im' fresh' q left_behind local' active known (rw same sane) in
      let answered' =
        subst
          (λ o.
            Returns (Answered cfg im' fresh' q left_behind o)
              (process_adoption_payload cfg im' fresh' q left_behind))
          there answered in
      subst
        (λ (r : Result IntakeOutcome × Desk).
          (r.0 ≡ err (refusal cfg (code ∷ rest)))
          × Returns (λ _ d2. event_types d2 ≡ event_types r.1 ++ event_submission_received ∷ [])
              (process_adoption_payload cfg im' fresh' q r.1))
        (sym (refused local unknown))
        (
          refl,
          Returns-map (Answered cfg im' fresh' q left_behind (some newcomer)) _ _ answered'
              (λ o d2 h. h.1.1),
        )
