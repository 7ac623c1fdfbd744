-- ===== src/Intake/Outcome.antt =====
-- What a submission answers and writes, by the contact that it finds.
use jp_adopt_core.Prelude.{
  ℕ, String, ◌≡◌, refl, sym, ◌∙◌, Bool, true, false, Option, none, some, List, [], ◌∷◌, ◌++◌,
  if◌then◌else◌, map, Bool-cases, inl, inr,
}
use mathlib.Core.Path.{subst}
use mathlib.Core.List.{map-append, append-nil, append_assoc}
use jp_adopt_core.Models.{Contact, FpgInterest}
use jp_adopt_core.Text.{Text}
use jp_adopt_core.Outbox.{OutboxRow, Payload, Session, emit_outbox}
use jp_adopt_core.Matching.Rows.{AdopterInterest}
use jp_adopt_core.Intake.Rows.{
  Desk, SubmissionBlocked, Submission, Import, Fresh, Settings, ok, ◌>>=◌, ◌>>◌, pure,
}
use jp_adopt_core.Intake.Contacts.{Party, adopter, apply_profile, write_consents}
use jp_adopt_core.Intake.Process.{
  IntakeOutcome, fabricate, one_at_least, no_fpg, status_is, report, finish, announce,
  select_interests, adopter_interests, accept_adopter, adopt, event_submission_received,
  event_contact_submitted,
}
use jp_adopt_core.Intake.Returns.{
  Returns, Returns-map, bind-ok, with_profiles, Returns-bind, Known, interest_rows, add_interests,
  select_interests_lem, apply_profile_lem,
}

-- The event types in the outbox, in order.
abbrev pub event_types : Desk → List String
event_types d = map (λ (r : OutboxRow). r.event_type) d.session.outbox

-- The interests that an accepted adopter gets.
abbrev pub adopter_rows : Fresh → ℕ → List FpgInterest → List AdopterInterest
adopter_rows fresh i [] = no_fpg (fresh.interest_id 0) i ∷ []
adopter_rows fresh i (sel ∷ sels) = interest_rows fresh i 0 (sel ∷ sels)

-- The events of an accepted adopter: the welcome's only for a new one.
abbrev pub adopter_events : Bool → List String
adopter_events true = event_submission_received ∷ event_contact_submitted ∷ []
adopter_events false = event_submission_received ∷ []

-- What is written, for a blocked contact and for another.
abbrev pub Writes : Bool → List AdopterInterest → List String → Desk → Desk → Type 0
Writes true rows events d d' =
    (d'.interests ≡ d.interests)
    × (d'.session.outbox ≡ d.session.outbox)
    × ((row : SubmissionBlocked) × (d'.blocked ≡ d.blocked ++ row ∷ []))
Writes false rows events d d' =
    (d'.interests ≡ d.interests ++ rows)
    × (event_types d' ≡ event_types d ++ events)
    × (d'.blocked ≡ d.blocked)

module _ (fresh : Fresh) where
  -- An answer of a submission.
  abbrev pub IsAnswer : List ℕ → ℕ → IntakeOutcome → Type 0
  IsAnswer ids contact_id o =
      (o.interest_ids ≡ ids) × (o.contact_id ≡ contact_id) × (o.submission_id ≡ fresh.submission_id)

  abbrev Reported : Desk → ℕ → List ℕ → IntakeOutcome → Desk → Type 0
  Reported d contact_id ids o d' =
      IsAnswer ids contact_id o
      × (d'.interests ≡ d.interests)
      × (event_types d' ≡ event_types d ++ event_submission_received ∷ [])
      × (d'.blocked ≡ d.blocked)
      × (d'.session.active ≡ none)

  emit_lem :
      (event_type : String) (payload : Payload) (i : ℕ) (s : Session)
      → s.active ≡ none
      → let s' = (emit_outbox event_type payload i s).1 in
        (map (λ (r : OutboxRow). r.event_type) s'.outbox
          ≡ map (λ (r : OutboxRow). r.event_type) s.outbox ++ event_type ∷ [])
        × (s'.active ≡ none)
  unfolding emit_outbox
  emit_lem event_type payload i s h =
      rw (h, emit_outbox) (map-append (λ (r : OutboxRow). r.event_type) s.outbox _, h)

  report_lem :
      (party : Party) (i : Option ℕ) (p : Submission) (org : Option String) (c : Contact)
      → (created : Bool) (ids : List ℕ) (d : Desk) → d.session.active ≡ none
      → Returns (Reported d c.id ids) (report party i fresh p org c created ids d)
  unfolding write_consents
  report_lem party i p org c created ids d h =
      let e = emit_lem event_submission_received _ fresh.received_event_id d.session h in
      ((refl, refl, refl), refl, e.0, refl, e.1)

  finish_lem :
      (party : Party) (i : Option ℕ) (p : Submission) (org : Option String) (c : Contact)
      → (created : Bool) (ids : List ℕ) (d : Desk) → d.session.active ≡ none
      → Returns (Reported d c.id ids) (finish party i fresh p org c created ids d)
  finish_lem party i p org c created ids d h =
      let (ps, e) = apply_profile_lem fresh c.id p.profile d in
      subst (Returns (Reported d c.id ids))
        (sym (
          bind-ok (apply_profile fresh c.id p.profile)
            (λ _. report party i fresh p org c created ids) d (with_profiles ps d) tt e))
        (report_lem party i p org c created ids (with_profiles ps d) h)

  abbrev Announced : Desk → Bool → IntakeOutcome → IntakeOutcome → Desk → Type 0
  Announced d created o o' d' =
      (o' ≡ o)
      × (d'.interests ≡ d.interests)
      × (event_types d' ≡ event_types d ++ (if created then event_contact_submitted ∷ [] else []))
      × (d'.blocked ≡ d.blocked)

  announce_lem :
      (c : Contact) (created : Bool) (o : IntakeOutcome) (d : Desk)
      → d.session.active ≡ none
      → Returns (Announced d created o) ((announce fresh c created >> pure o) d)
  announce_lem c false o d h = (refl, refl, sym (append-nil (event_types d)), refl)
  announce_lem c true o d h =
      let e = emit_lem event_contact_submitted _ fresh.submitted_event_id d.session h in
      (refl, refl, e.0, refl)

  adopter_events_lem :
      (created : Bool) (ts : List String)
      → (ts ++ event_submission_received ∷ [])
          ++ (if created then event_contact_submitted ∷ [] else [])
        ≡ ts ++ adopter_events created
  adopter_events_lem false ts = append-nil _
  adopter_events_lem true ts =
      append_assoc ts (event_submission_received ∷ []) (event_contact_submitted ∷ [])

  abbrev Accepted : Bool → List AdopterInterest → Desk → ℕ → List ℕ → IntakeOutcome → Desk → Type 0
  Accepted created rows d contact_id ids o d' =
      IsAnswer ids contact_id o × Writes false rows (adopter_events created) d d'

  -- An adopter that is not blocked, once its interests are written.
  conclude_lem :
      (im : Import) (p : Submission) (c : Contact) (created : Bool) (ids : List ℕ)
      → (rows : List AdopterInterest) (d d1 : Desk) → d1.session.active ≡ none
      → d1.interests ≡ d.interests ++ rows
      → event_types d1 ≡ event_types d
      → d1.blocked ≡ d.blocked
      → Returns (Accepted created rows d c.id ids) (
          (finish adopter im.request_id fresh p none c created ids >>= λ o.
          announce fresh c created >> pure o)
            d1)
  conclude_lem im p c created ids rows d d1 active wrote events blocked =
      Returns-bind (finish adopter im.request_id fresh p none c created ids) _ d1
        (Reported d1 c.id ids) (Accepted created rows d c.id ids)
        (finish_lem adopter im.request_id p none c created ids d1 active)
        (λ o d2 h.
          Returns-map (Announced d2 created o) (Accepted created rows d c.id ids) _
            (announce_lem c created o d2 h.4)
            (λ o' d3 g. (
              subst (IsAnswer ids c.id) (sym g.0) h.0,
              (
                g.1 ∙ h.1 ∙ wrote,
                g.2 ∙ rw (h.2, events) (adopter_events_lem created (event_types d)),
                g.3 ∙ h.3 ∙ blocked,
              ),
            )))

  adopter_interests_lem :
      (cfg : Settings) (c : Contact) (sel : FpgInterest) (sels : List FpgInterest) (d : Desk)
      → Known cfg.strip d.fpgs (sel ∷ sels)
      → adopter_interests cfg fresh c (sel ∷ sels) d ≡ (
        ok (c, fabricate fresh 0 (sel ∷ sels)),
        add_interests (interest_rows fresh c.id 0 (sel ∷ sels)) d,
      )
  adopter_interests_lem cfg c sel sels d k =
      bind-ok (select_interests cfg fresh c.id (sel ∷ sels)) (λ ids. pure (c, ids)) d
        (add_interests (interest_rows fresh c.id 0 (sel ∷ sels)) d) (fabricate fresh 0 (sel ∷ sels))
        (select_interests_lem cfg fresh c.id (sel ∷ sels) d k)

  accept_adopter_lem :
      (cfg : Settings) (im : Import) (p : Submission) (c : Contact) (created : Bool) (d : Desk)
      → d.session.active ≡ none
      → Known cfg.strip d.fpgs p.fpg_selections
      → Returns
          (Accepted created
            (adopter_rows fresh c.id p.fpg_selections)
            d
            c.id
            (one_at_least fresh p.fpg_selections))
          (accept_adopter cfg im fresh p c created d)
  accept_adopter_lem cfg im p c created d active known = go p.fpg_selections known
    where
      go :
          (sels : List FpgInterest)
          → Known cfg.strip d.fpgs sels
          → Returns
              (Accepted created (adopter_rows fresh c.id sels) d c.id (one_at_least fresh sels))
              ((adopter_interests cfg fresh c sels >>= λ r.
                  finish adopter im.request_id fresh p none r.0 created r.1 >>= λ o.
                  announce fresh r.0 created >> pure o)
                d)
      go [] k =
          conclude_lem im p (record c { adopter_status = some "potential_adopter" }) created
            (fresh.interest_id 0 ∷ []) (no_fpg (fresh.interest_id 0) c.id ∷ []) d _ active refl refl
            refl
      go (sel ∷ sels) k =
          subst
            (Returns (
              Accepted created (adopter_rows fresh c.id (sel ∷ sels)) d c.id
                (one_at_least fresh (sel ∷ sels))))
            (sym (
              bind-ok (adopter_interests cfg fresh c (sel ∷ sels))
                (λ r. finish adopter im.request_id fresh p none r.0 created r.1 >>= λ o.
                  announce fresh r.0 created >> pure o)
                d (add_interests (interest_rows fresh c.id 0 (sel ∷ sels)) d)
                (c, fabricate fresh 0 (sel ∷ sels)) (adopter_interests_lem cfg c sel sels d k)))
            (conclude_lem im p c created (fabricate fresh 0 (sel ∷ sels))
              (interest_rows fresh c.id 0 (sel ∷ sels)) d
              (add_interests (interest_rows fresh c.id 0 (sel ∷ sels)) d) active refl refl refl)

  -- The answer to an adopter that was found or made.
  pub adopt_lem :
      (cfg : Settings) (im : Import) (email : Text) (p : Submission) (c : Contact) (created : Bool)
      → (d : Desk) → d.session.active ≡ none
      → Known cfg.strip d.fpgs p.fpg_selections
      → Returns
          (λ o d'.
            IsAnswer (one_at_least fresh p.fpg_selections) c.id o
            × Writes
                (status_is "do_not_engage" c.adopter_status)
                (adopter_rows fresh c.id p.fpg_selections)
                (adopter_events created)
                d
                d')
          (adopt cfg im fresh email p (c, created) d)
  adopt_lem cfg im email p c created d active known =
      elim (Bool-cases (status_is "do_not_engage" c.adopter_status)) [
        | inl e ↦ rw (e, adopt) ((refl, refl, refl), (refl, refl, (_, refl)))
        | inr e ↦ rw (e, adopt) (accept_adopter_lem cfg im p c created d active known)
      ]
