-- ===== src/Intake/Keeps.antt =====
-- Properties of the tables that actions of the intake keep, whether they return or raise.
use jp_adopt_core.Prelude.{
  ℕ, suc, String, ◌≡◌, Bool, true, false, Option, none, some, List, [], ◌∷◌, not, ◌&&◌, arith,
  if◌then◌else◌,
}
use jp_adopt_core.Models.{Contact, FpgInterest}
use jp_adopt_core.Text.{Text}
use jp_adopt_core.Matching.Rows.{AdopterInterest}
use jp_adopt_core.Intake.Rows.{
  ApiIdempotencyKey, IntakeApiKey, Desk, Domain, adoption, facilitation, Submission, Import, Fresh,
  Settings, Failure, Result, ok, err, Action, ◌>>=◌, pure, raise, modify,
}
use jp_adopt_core.Intake.Contacts.{
  Party, adopter, facilitator, resolve_from, resolve_contact, insert_contact, apply_profile,
  write_consents,
}
use jp_adopt_core.Intake.Process.{
  block, status_is, one_at_least, fabricate, create_interest, create_interests, raise_missing,
  select_interests, report, finish, announce, adopter_interests, accept_adopter, accept_facilitator,
  adopt, facilitate, process_adoption_payload, process_facilitation_payload,
}
use jp_adopt_core.Intake.Request.{no_import, process}
use jp_adopt_core.Intake.Email.{email_sanity}
use jp_adopt_core.Magic.Rows.{normalize_email}

-- A property of the tables that the intake only reads.
abbrev pub Frame : List ApiIdempotencyKey → List IntakeApiKey → Desk → Type 0
Frame rows keys d = (d.idempotency ≡ rows) × (d.api_keys ≡ keys)

pub record Keeps {A : Type 0} (P : Desk → Type 0) (m : Action A) : Type 0 where
  pub at : (d : Desk) → P d → P (m d).1

module _ {P : Desk → Type 0} {A : Type 0} where
  Keeps-pure : (a : A) → Keeps P (pure a)
  Keeps-pure a = record { at = λ d h. h }

  Keeps-raise : (e : Failure) → Keeps P (raise {A = A} e)
  Keeps-raise e = record { at = λ d h. h }

  Keeps-bind :
      {B : Type 0} (m : Action B) (f : B → Action A)
      → Keeps P m
      → ((b : B) → Keeps P (f b))
      → Keeps P (m >>= f)
  Keeps-bind {B} m f km kf = record { at = λ d h. go (m d) (km.at d h) }
    where
      go :
          (r : Result B × Desk)
          → P r.1
          → P (elim r.0 as (λ _. Result A × Desk) [ ok b ↦ f b r.1 | err e ↦ (err e, r.1) ]).1
      go (ok b, d') h = (kf b).at d' h
      go (err e, d') h = h

  Keeps-if : (b : Bool) (m n : Action A) → Keeps P m → Keeps P n → Keeps P (if b then m else n)
  Keeps-if true m n km kn = km
  Keeps-if false m n km kn = kn

module _ (rows : List ApiIdempotencyKey) (keys : List IntakeApiKey) where
  modify-Frame :
      (f : Desk → Desk)
      → ((d : Desk) → Frame rows keys d → Frame rows keys (f d))
      → Keeps (Frame rows keys) (modify f)
  modify-Frame f kf = record { at = kf }

  insert_contact-Frame : (c : Contact) → Keeps (Frame rows keys) (insert_contact c)
  insert_contact-Frame c = record { at = λ d h. ground arith }

  resolve_from-Frame :
      (now : ℕ) (c : Contact) (opt_in : Bool) (o : Option Contact)
      → Keeps (Frame rows keys) (resolve_from now c opt_in o)
  resolve_from-Frame now c opt_in none = Keeps-bind _ _ (insert_contact-Frame c) (λ _. Keeps-pure _)
  resolve_from-Frame now c opt_in (some e) =
      Keeps-if (opt_in && not e.newsletter_opt_in) _ _ (record { at = λ d h. h })
        (record { at = λ d h. h })

  resolve_contact-Frame :
      (cfg : Settings) (party : Party) (im : Import) (fresh : Fresh) (email : Text) (p : Submission)
      → Keeps (Frame rows keys) (resolve_contact cfg party im fresh email p)
  unfolding resolve_contact
  resolve_contact-Frame cfg party im fresh email p = record {
    at = λ d h. (resolve_from-Frame fresh.now _ p.newsletter_opt_in _).at d h;
  }

  apply_profile-Frame :
      (fresh : Fresh) (i : ℕ) (o : Option (List (String × String)))
      → Keeps (Frame rows keys) (apply_profile fresh i o)
  unfolding apply_profile
  apply_profile-Frame fresh i none = Keeps-pure _
  apply_profile-Frame fresh i (some []) = Keeps-pure _
  apply_profile-Frame fresh i (some (x ∷ xs)) = modify-Frame _ (λ d h. h)

  create_interest-Frame :
      (x : AdopterInterest) (code : String) → Keeps (Frame rows keys) (create_interest x code)
  create_interest-Frame x code = record { at = λ d h. ground arith }

  create_interests-Frame :
      (fresh : Fresh) (i k : ℕ) (sels : List FpgInterest)
      → Keeps (Frame rows keys) (create_interests fresh i k sels)
  unfolding create_interests
  create_interests-Frame fresh i k [] = Keeps-pure _
  create_interests-Frame fresh i k (sel ∷ sels) =
      Keeps-bind _ _ (create_interest-Frame _ _)
        (λ _. Keeps-bind _ _ (create_interests-Frame fresh i (suc k) sels) (λ _. Keeps-pure _))

  raise_missing-Frame :
      (cfg : Settings) (missing : List String) → Keeps (Frame rows keys) (raise_missing cfg missing)
  raise_missing-Frame cfg [] = Keeps-pure _
  raise_missing-Frame cfg (c ∷ cs) = Keeps-raise _

  select_interests-Frame :
      (cfg : Settings) (fresh : Fresh) (i : ℕ) (sels : List FpgInterest)
      → Keeps (Frame rows keys) (select_interests cfg fresh i sels)
  select_interests-Frame cfg fresh i sels = record {
    at = λ d h.
        (Keeps-bind _ _ (raise_missing-Frame cfg _) (λ _. create_interests-Frame fresh i 0 sels)).at
          d h;
  }

  report-Frame :
      (party : Party) (request_id : Option ℕ) (fresh : Fresh) (p : Submission) (o : Option String)
      → (c : Contact) (created : Bool) (ids : List ℕ)
      → Keeps (Frame rows keys) (report party request_id fresh p o c created ids)
  unfolding write_consents
  report-Frame party request_id fresh p o c created ids = record { at = λ d h. h }

  finish-Frame :
      (party : Party) (request_id : Option ℕ) (fresh : Fresh) (p : Submission) (o : Option String)
      → (c : Contact) (created : Bool) (ids : List ℕ)
      → Keeps (Frame rows keys) (finish party request_id fresh p o c created ids)
  finish-Frame party request_id fresh p o c created ids =
      Keeps-bind _ _ (apply_profile-Frame fresh c.id p.profile)
        (λ _. report-Frame party request_id fresh p o c created ids)

  announce-Frame :
      (fresh : Fresh) (c : Contact) (created : Bool)
      → Keeps (Frame rows keys) (announce fresh c created)
  announce-Frame fresh c false = Keeps-pure _
  announce-Frame fresh c true = modify-Frame _ (λ d h. h)

  adopter_interests-Frame :
      (cfg : Settings) (fresh : Fresh) (c : Contact) (sels : List FpgInterest)
      → Keeps (Frame rows keys) (adopter_interests cfg fresh c sels)
  adopter_interests-Frame cfg fresh c [] = record { at = λ d h. h }
  adopter_interests-Frame cfg fresh c (sel ∷ sels) =
      Keeps-bind _ _ (select_interests-Frame cfg fresh _ (sel ∷ sels)) (λ _. Keeps-pure _)

  block-Frame :
      (party : Party) (fresh : Fresh) (email : Text) (c : Contact) (created : Bool) (ids : List ℕ)
      → Keeps (Frame rows keys) (block party fresh email c created ids)
  block-Frame party fresh email c created ids = record { at = λ d h. h }

  accept_adopter-Frame :
      (cfg : Settings) (im : Import) (fresh : Fresh) (p : Submission) (c : Contact) (created : Bool)
      → Keeps (Frame rows keys) (accept_adopter cfg im fresh p c created)
  accept_adopter-Frame cfg im fresh p c created =
      Keeps-bind _ _ (adopter_interests-Frame cfg fresh c p.fpg_selections) (λ r.
        Keeps-bind _ _ (finish-Frame adopter im.request_id fresh p none r.0 created r.1)
          (λ o. Keeps-bind _ (λ _. pure o) (announce-Frame fresh r.0 created) (λ _. Keeps-pure o)))

  accept_facilitator-Frame :
      (cfg : Settings) (im : Import) (fresh : Fresh) (p : Submission) (c : Contact) (created : Bool)
      → Keeps (Frame rows keys) (accept_facilitator cfg im fresh p c created)
  accept_facilitator-Frame cfg im fresh p c created =
      Keeps-bind _ _ (select_interests-Frame cfg fresh c.id p.fpg_selections)
        (λ ids. finish-Frame facilitator im.request_id fresh p p.organization_name c created ids)

  adopt-Frame :
      (cfg : Settings) (im : Import) (fresh : Fresh) (email : Text) (p : Submission)
      → (r : Contact × Bool) → Keeps (Frame rows keys) (adopt cfg im fresh email p r)
  adopt-Frame cfg im fresh email p (c, created) =
      Keeps-if (status_is "do_not_engage" c.adopter_status) _ _
        (block-Frame adopter fresh email c created (one_at_least fresh p.fpg_selections))
        (accept_adopter-Frame cfg im fresh p c created)

  facilitate-Frame :
      (cfg : Settings) (im : Import) (fresh : Fresh) (email : Text) (p : Submission)
      → (r : Contact × Bool) → Keeps (Frame rows keys) (facilitate cfg im fresh email p r)
  facilitate-Frame cfg im fresh email p (c, created) =
      Keeps-if (status_is "do_not_engage" c.facilitator_status) _ _
        (block-Frame facilitator fresh email c created (fabricate fresh 0 p.fpg_selections))
        (accept_facilitator-Frame cfg im fresh p c created)

  -- A submission, whatever its outcome, leaves the keys of the requests and of the callers alone.
  pub process-Frame :
      (cfg : Settings) (fresh : Fresh) (domain : Domain) (p : Submission)
      → Keeps (Frame rows keys) (process cfg fresh domain p)
  unfolding process_adoption_payload process_facilitation_payload
  process-Frame cfg fresh adoption p =
      Keeps-if (email_sanity cfg.unicode (normalize_email cfg.unicode p.email)) _ _
        (Keeps-bind _ _
          (resolve_contact-Frame cfg adopter (no_import fresh.request_id) fresh
            (normalize_email cfg.unicode p.email) p)
          (adopt-Frame cfg (no_import fresh.request_id) fresh (normalize_email cfg.unicode p.email)
            p))
        (Keeps-raise _)
  process-Frame cfg fresh facilitation p =
      Keeps-if (email_sanity cfg.unicode (normalize_email cfg.unicode p.email)) _ _
        (Keeps-bind _ _
          (resolve_contact-Frame cfg facilitator (no_import fresh.request_id) fresh
            (normalize_email cfg.unicode p.email) p)
          (facilitate-Frame cfg (no_import fresh.request_id) fresh
            (normalize_email cfg.unicode p.email) p))
        (Keeps-raise _)
