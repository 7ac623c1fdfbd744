-- ===== src/Intake/Callers.antt =====
-- Which callers the intake admits, and that recording a use of a key does not change that.
use jp_adopt_core.Prelude.{
  ℕ, ◌≡◌, refl, ◌∙◌, Bool, true, false, Option, none, some, List, [], ◌∷◌, ◌⊎◌, inl, inr,
  if◌then◌else◌, arith,
}
use jp_adopt_core.Text.{Text}
use jp_adopt_core.Intake.Rows.{
  IntakeApiKey, Response, Domain, Submission, Fresh, Settings, Codec, Desk,
}
use jp_adopt_core.Intake.Access.{
  Caller, Identity, nobody, label, raised, touch_api_key, touch_bearer, find_api_key,
  any_active_key, identify_bearer, bearer, authenticate, is_closed,
}
use jp_adopt_core.Intake.Request.{
  Request, Answer, Ticket, admit, given, read_payload, with_payload, with_key, with_identity,
}

abbrev pub is_known : Option IntakeApiKey → Bool
is_known none = false
is_known (some k) = true

-- Two tables of keys that admit the same callers.
abbrev pub SameKeys : List IntakeApiKey → List IntakeApiKey → Type 0
SameKeys ks ks' =
    ((hash : Text) → is_known (find_api_key hash ks) ≡ is_known (find_api_key hash ks'))
    × (any_active_key ks ≡ any_active_key ks')

pub find_api_key-touch :
    (now : ℕ) (caller : Caller) (h hash : Text) (ks : List IntakeApiKey)
    → is_known (find_api_key hash ks) ≡ is_known (find_api_key hash (touch_api_key now caller h ks))
find_api_key-touch now caller h hash [] = refl
find_api_key-touch now caller h hash (k ∷ ks) =
    ground (arith, find_api_key-touch now caller h hash ks)

pub any_active_key-touch :
    (now : ℕ) (caller : Caller) (h : Text) (ks : List IntakeApiKey)
    → any_active_key ks ≡ any_active_key (touch_api_key now caller h ks)
any_active_key-touch now caller h [] = refl
any_active_key-touch now caller h (k ∷ ks) = ground (arith, any_active_key-touch now caller h ks)

-- Recording a use leaves the callers that are admitted.
pub authenticate-SameKeys :
    (cfg : Settings) (now : ℕ) (caller : Caller) (d : Desk)
    → SameKeys d.api_keys (authenticate cfg now caller d).1.api_keys
unfolding authenticate
authenticate-SameKeys cfg now caller d = go (bearer cfg caller.authorization)
  where
    go : (o : Option Text) → SameKeys d.api_keys (touch_bearer cfg now caller o d).api_keys
    go none = (λ hash. refl, refl)
    go (some []) = (λ hash. refl, refl)
    go (some (c ∷ cs)) = (
      λ hash. find_api_key-touch now caller _ hash d.api_keys,
      any_active_key-touch now caller _ d.api_keys,
    )

pub identify_bearer-same :
    (cfg : Settings) (o : Option Text) (ks ks' : List IntakeApiKey)
    → SameKeys ks ks'
    → identify_bearer cfg o ks ≡ identify_bearer cfg o ks'
identify_bearer-same cfg none ks ks' h = refl
identify_bearer-same cfg (some []) ks ks' h = refl
identify_bearer-same cfg (some (c ∷ cs)) ks ks' h = ground (arith, h.0 (cfg.sha256 (c ∷ cs)))

pub SameKeys-trans :
    (ks ks' ks'' : List IntakeApiKey) → SameKeys ks ks' → SameKeys ks' ks'' → SameKeys ks ks''
SameKeys-trans ks ks' ks'' h g = (λ hash. h.0 hash ∙ g.0 hash, h.1 ∙ g.1)

module _ {J : Type 0} (codec : Codec J) (cfg : Settings) where
  pub read_payload-inl :
      (i j : ℕ) (domain : Domain) (raw : Text) (p : Submission)
      → read_payload codec cfg i domain raw ≡ inl p
      → read_payload codec cfg j domain raw ≡ inl p
  read_payload-inl i j domain [] p h = ground arith
  read_payload-inl i j domain (c ∷ cs) p h = ground arith

  pub with_identity-inl :
      (i j : ℕ) (req : Request) (id : Identity) (t : Ticket)
      → with_identity codec cfg i req id ≡ inl t
      → with_identity codec cfg j req id ≡ inl t
  with_identity-inl i j req nobody t h = ground arith
  with_identity-inl i j req (raised e) t h = ground arith
  with_identity-inl i j req (label a) t h = go (given req.idempotency_key) h
    where
      go :
          (o : Option Text)
          → with_key codec cfg i req a o ≡ inl t
          → with_key codec cfg j req a o ≡ inl t
      go none g = ground arith
      go (some key) g = pick (read_payload codec cfg i req.domain req.raw) refl g
        where
          pick :
              (r : Submission ⊎ Response)
              → read_payload codec cfg i req.domain req.raw ≡ r
              → with_payload codec cfg a key r ≡ inl t
              → with_payload codec cfg a key (read_payload codec cfg j req.domain req.raw) ≡ inl t
          pick (inl p) e g' = rw (read_payload-inl i j req.domain req.raw p e) g'
          pick (inr r) e g' = ground arith

  pub unless_closed :
      (b : Bool) (a a' : Answer) (m m' : Ticket ⊎ Answer) (t : Ticket)
      → (if b then inr a else m) ≡ inl t
      → (m ≡ inl t → m' ≡ inl t)
      → (if b then inr a' else m') ≡ inl t
  unless_closed true a a' m m' t h k = ground arith
  unless_closed false a a' m m' t h k = k h

  -- A ticket does not depend on the moment, nor on the recorded uses.
  pub admit-same :
      (req : Request) (fresh fresh' : Fresh) (d d' : Desk) (t : Ticket)
      → SameKeys d.api_keys d'.api_keys
      → admit codec cfg req fresh d ≡ inl t
      → admit codec cfg req fresh' d' ≡ inl t
  unfolding admit authenticate
  admit-same req fresh fresh' d d' t same h =
      rw
        (
          ← identify_bearer-same cfg (bearer cfg req.caller.authorization) d.api_keys d'.api_keys
              same,
          ← same.1,
        )
        (unless_closed (is_closed cfg d) _ _ _ _ t h (
          with_identity-inl fresh.request_id fresh'.request_id req
            (identify_bearer cfg (bearer cfg req.caller.authorization) d.api_keys) t))
