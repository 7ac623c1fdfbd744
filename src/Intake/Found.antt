-- ===== src/Intake/Found.antt =====
-- The answers of `process_adoption_payload` and what it writes, by the contact with the submission's
-- address; and how a refused submission changes what the next one finds.
use jp_adopt_core.Prelude.{
  ℕ, String, ◌≡◌, refl, sym, ◌∙◌, Bool, true, false, not, ◌&&◌, ◌||◌, Option, none, some, List, [],
  ◌∷◌, ◌++◌, Bool-cases, inl, inr, arith,
}
use mathlib.Core.Path.{subst}
use jp_adopt_core.Models.{Contact}
use jp_adopt_core.Text.{Text}
use jp_adopt_core.Magic.Rows.{normalize_email}
use jp_adopt_core.Matching.Rows.{AdopterInterest}
use jp_adopt_core.Intake.Rows.{Desk, Submission, Import, Fresh, Settings, ok, ◌>>=◌, pure}
use jp_adopt_core.Intake.Email.{email_sanity}
use jp_adopt_core.Intake.Contacts.{
  Party, adopter, find_by_email, has_source, new_contact, insert_contact, resolve_from,
  resolve_contact, touch, write_contact, text_is,
}
use jp_adopt_core.Intake.Process.{
  IntakeOutcome, one_at_least, status_is, adopt, process_adoption_payload,
}
use jp_adopt_core.Intake.Returns.{Returns, Returns-map, bind-ok, Known}
use jp_adopt_core.Intake.Outcome.{IsAnswer, Writes, adopter_rows, adopter_events, adopt_lem}

has_source-none : (c : Contact) (cs : List Contact) → c.source_id ≡ none → has_source c cs ≡ false
has_source-none c [] h = refl
has_source-none c (x ∷ xs) h =
    rw (h, has_source-none c xs h) (go (text_is x.source_system c.source_system) x.source_id)
  where
    go : (b : Bool) (o : Option String) → b && text_is o none || false ≡ false
    go b none = ground arith
    go b (some t) = ground arith

abbrev pub with_contacts : List Contact → Desk → Desk
with_contacts cs d = record d { session = record d.session { contacts = cs } }

Writes-contacts :
    (b : Bool) (rows : List AdopterInterest) (events : List String) (cs : List Contact)
    (d d' : Desk)
    → Writes b rows events (with_contacts cs d) d'
    → Writes b rows events d d'
Writes-contacts true rows events cs d d' h = h
Writes-contacts false rows events cs d d' h = h

abbrev pub opted_in : Contact → Contact
opted_in c = record c { newsletter_opt_in = true }

module _ (cfg : Settings) (party : Party) (im : Import) (fresh : Fresh) (email : Text)
    (p : Submission) (d : Desk) where
  pub resolve_new :
      im.source_id ≡ none
      → find_by_email email d.session.contacts ≡ none
      → resolve_contact cfg party im fresh email p d ≡ (
        ok (new_contact cfg party im fresh email p, true),
        with_contacts (d.session.contacts ++ new_contact cfg party im fresh email p ∷ []) d,
      )
  unfolding resolve_contact
  resolve_new local unknown =
      rw (unknown, resolve_from)
        (let c = new_contact cfg party im fresh email p in
          bind-ok (insert_contact c) (λ _. pure (c, true)) d
            (with_contacts (d.session.contacts ++ c ∷ []) d) tt
            (rw (has_source-none c d.session.contacts local, insert_contact)))

  pub resolve_known :
      (c : Contact)
      → find_by_email email d.session.contacts ≡ some c
      → resolve_contact cfg party im fresh email p d ≡ touch fresh.now p.newsletter_opt_in c d
  unfolding resolve_contact
  resolve_known c known = rw (known, resolve_from)

abbrev is_new : Option Contact → Bool
is_new none = true
is_new (some c) = false

abbrev pub is_blocked : Option Contact → Bool
is_blocked none = false
is_blocked (some c) = status_is "do_not_engage" c.adopter_status

abbrev pub id_of : Fresh → Option Contact → ℕ
id_of fresh none = fresh.contact_id
id_of fresh (some c) = c.id

module _ (cfg : Settings) (im : Import) (fresh : Fresh) (p : Submission) (d : Desk) where
  abbrev pub address : Text
  address = normalize_email cfg.unicode p.email

  abbrev pub found : Option Contact
  found = find_by_email address d.session.contacts

  abbrev pub Answered : Option Contact → IntakeOutcome → Desk → Type 0
  Answered o outcome d' =
      IsAnswer fresh (one_at_least fresh p.fpg_selections) (id_of fresh o) outcome
      × Writes (is_blocked o) (adopter_rows fresh (id_of fresh o) p.fpg_selections)
          (adopter_events (is_new o)) d d'

  module _ (local : im.source_id ≡ none) (active : d.session.active ≡ none)
      (known : Known cfg.strip d.fpgs p.fpg_selections) where
    then_adopt :
        (c : Contact) (created : Bool) (d' : Desk) (Q : IntakeOutcome → Desk → Type 0)
        → resolve_contact cfg adopter im fresh address p d ≡ (ok (c, created), d')
        → Returns Q (adopt cfg im fresh address p (c, created) d')
        → Returns Q
            ((resolve_contact cfg adopter im fresh address p >>= adopt cfg im fresh address p) d)
    then_adopt c created d' Q e h =
        subst (Returns Q)
          (sym (
            bind-ok (resolve_contact cfg adopter im fresh address p) (adopt cfg im fresh address p)
              d d' (c, created) e))
          h

    resolved :
        (o : Option Contact)
        → found ≡ o
        → Returns
            (Answered o)
            ((resolve_contact cfg adopter im fresh address p >>= adopt cfg im fresh address p) d)
    resolved none e =
        let c = new_contact cfg adopter im fresh address p in
        let d' = with_contacts (d.session.contacts ++ c ∷ []) d in
        then_adopt c true d' (Answered none) (resolve_new cfg adopter im fresh address p d local e)
          (adopt_lem fresh cfg im address p c true d' active known)
    resolved (some c) e = elim (Bool-cases (p.newsletter_opt_in && not c.newsletter_opt_in)) [
      | inl b ↦
          let d' = with_contacts (write_contact fresh.now (opted_in c) d.session.contacts) d in
          then_adopt (opted_in c) false d' (Answered (some c))
            (resolve_known cfg adopter im fresh address p d c e ∙ rw (b, touch))
            (Returns-map _ (Answered (some c)) _
              (adopt_lem fresh cfg im address p (opted_in c) false d' active known)
              (λ o d2 h. (h.0, Writes-contacts (is_blocked (some c)) _ _ _ d d2 h.1)))
      | inr b ↦
          then_adopt c false d (Answered (some c))
            (resolve_known cfg adopter im fresh address p d c e ∙ rw (b, touch))
            (adopt_lem fresh cfg im address p c false d active known)
    ]

    -- An adoption of a sane address whose codes are all known, outside a suppression scope, is
    -- answered with one interest id for each selection, or with one if there is none, whether or not
    -- its contact is blocked: the answer depends on the submission and the contact's id alone. For a
    -- blocked contact no interest and no event is written, and one row is logged. For another the
    -- interests are written under the ids of the answer, with the event of the submission, and with
    -- the welcome's event exactly for a new contact.
    pub adoption_answers_alike :
        email_sanity cfg.unicode address ≡ true
        → Returns (Answered found) (process_adoption_payload cfg im fresh p d)
    unfolding process_adoption_payload
    adoption_answers_alike sane = rw sane (resolved found refl)
