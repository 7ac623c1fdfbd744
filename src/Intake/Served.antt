-- ===== src/Intake/Served.antt =====
-- The tables of idempotency keys and of callers, over a sequence of requests.
use jp_adopt_core.Prelude.{
  ◌≡◌, refl, ap, ◌∙◌, false, Option, none, some, List, [], ◌∷◌, ◌++◌, ◌⊎◌, inl, inr, ◌&&◌,
  Bool-cases, Option-cases, arith,
}
use jp_adopt_core.Text.{Text, text_eq, text_eq_iff}
use jp_adopt_core.Intake.Rows.{
  IntakeApiKey, ApiIdempotencyKey, Fresh, Settings, Codec, Desk, Result,
}
use jp_adopt_core.Intake.Access.{find_claim, new_claim, touch_bearer, bearer, authenticate}
use jp_adopt_core.Intake.Process.{IntakeOutcome}
use jp_adopt_core.Intake.Request.{
  Request, Answer, reply, crash, Ticket, admit, commit_claim, claimed, run_ticket, handle, process,
  close_claim, respond,
}
use jp_adopt_core.Intake.Keeps.{process-Frame}
use jp_adopt_core.Intake.Callers.{SameKeys, SameKeys-trans, authenticate-SameKeys}
use jp_adopt_core.Intake.Claims.{find_claim-append, find_claim-finalize_other}

-- The row of a pair, and the callers that were admitted.
abbrev pub Kept : Text → Text → ApiIdempotencyKey → List IntakeApiKey → Desk → Type 0
Kept a k x ks d = (find_claim a k d.idempotency ≡ some x) × SameKeys ks d.api_keys

module _ {J : Type 0} (codec : Codec J) (cfg : Settings) where
  -- What a commit does to the keys of the requests and of the callers.
  commit-Kept :
      (a k : Text) (x : ApiIdempotencyKey) (ks : List IntakeApiKey) (t : Ticket) (fresh : Fresh)
      → (before : Desk) (r : Result IntakeOutcome × Desk) (row : ApiIdempotencyKey)
      → Kept a k x ks before
      → text_eq t.api_key_id a && text_eq t.key k ≡ false
      → text_eq row.api_key_id a && text_eq row.key k ≡ false
      → r.1.idempotency ≡ before.idempotency ++ row ∷ []
      → SameKeys ks r.1.api_keys
      → Kept a k x ks (commit_claim codec cfg t fresh before r).1
  commit-Kept a k x ks t fresh before (r, d) row h other new e same =
      go (respond fresh.request_id r)
    where
      go : (s : Answer) → Kept a k x ks (close_claim t fresh before d s).1
      go (reply b) = (
        find_claim-finalize_other a k t.api_key_id t.key fresh.now b d.idempotency other
            ∙ ap (find_claim a k) e
            ∙ rw (find_claim-append a k before.idempotency row, h.0) refl,
        same,
      )
      go (crash c) = h

  claimed-SameKeys :
      (req : Request) (t : Ticket) (fresh : Fresh) (d : Desk)
      → SameKeys d.api_keys (claimed codec cfg req t fresh d).api_keys
  claimed-SameKeys req t fresh d = authenticate-SameKeys cfg fresh.now req.caller d

  claimed_rows :
      (req : Request) (t : Ticket) (fresh : Fresh) (d : Desk)
      → (claimed codec cfg req t fresh d).idempotency
        ≡ d.idempotency ++ new_claim t.api_key_id t.key (cfg.sha256 req.raw) fresh.now ∷ []
  unfolding authenticate
  claimed_rows req t fresh d = go (bearer cfg req.caller.authorization)
    where
      go :
          (o : Option Text)
          → (touch_bearer cfg fresh.now req.caller o d).idempotency
              ++ new_claim t.api_key_id t.key (cfg.sha256 req.raw) fresh.now ∷ []
            ≡ d.idempotency ++ new_claim t.api_key_id t.key (cfg.sha256 req.raw) fresh.now ∷ []
      go none = refl
      go (some []) = refl
      go (some (c ∷ cs)) = refl

  -- The rows and callers that a submission leaves, in terms of those before the request.
  pub processed :
      (req : Request) (t : Ticket) (fresh : Fresh) (d : Desk) (ks : List IntakeApiKey)
      → SameKeys ks d.api_keys
      → let d' = (process cfg fresh req.domain t.payload (claimed codec cfg req t fresh d)).1 in
        (d'.idempotency
          ≡ d.idempotency ++ new_claim t.api_key_id t.key (cfg.sha256 req.raw) fresh.now ∷ [])
        × SameKeys ks d'.api_keys
  processed req t fresh d ks same =
      let c = claimed codec cfg req t fresh d in
      let f =
        (process-Frame c.idempotency c.api_keys cfg fresh req.domain t.payload).at c (refl, refl) in
      (
        f.0 ∙ claimed_rows req t fresh d,
        rw f.1 (SameKeys-trans ks d.api_keys c.api_keys same (claimed-SameKeys req t fresh d)),
      )

  differ :
      (a k a' k' : Text) (rows : List ApiIdempotencyKey) (x : ApiIdempotencyKey)
      → find_claim a k rows ≡ some x
      → find_claim a' k' rows ≡ none
      → text_eq a' a && text_eq k' k ≡ false
  differ a k a' k' rows x h g = elim (Bool-cases (text_eq a' a && text_eq k' k)) [
    | inl e ↦ absurd (
        let ea : a' ≡ a = (text_eq_iff a' a).0 (ground arith) in
        let ek : k' ≡ k = (text_eq_iff k' k).0 (ground arith) in
        let same : find_claim a' k' rows ≡ find_claim a k rows = rw (ea, ek) refl in cc)
    | inr e ↦ e
  ]

  -- Whatever request comes, a row that is there stays, and so do the callers.
  handle-Kept :
      (a k : Text) (x : ApiIdempotencyKey) (ks : List IntakeApiKey) (req : Request) (fresh : Fresh)
      → (d : Desk) → Kept a k x ks d
      → Kept a k x ks (handle codec cfg req fresh d).1
  unfolding handle
  handle-Kept a k x ks req fresh d h = go (admit codec cfg req fresh d)
    where
      go :
          (m : Ticket ⊎ Answer)
          → Kept a k x ks
              (elim m as (λ _. Answer × Desk) [
                | inl t ↦ run_ticket codec cfg req fresh d t
                | inr b ↦ (b, d)
              ]).1
      go (inr b) = h
      go (inl t) = elim (Option-cases (find_claim t.api_key_id t.key d.idempotency)) [
        | inr (r, e) ↦ rw (e, run_ticket) h
        | inl e ↦
            rw (e, run_ticket)
              (let p = processed req t fresh d ks h.1 in
                let other = differ a k t.api_key_id t.key d.idempotency x h.0 e in
                commit-Kept a k x ks t fresh d
                  (process cfg fresh req.domain t.payload (claimed codec cfg req t fresh d))
                  (new_claim t.api_key_id t.key (cfg.sha256 req.raw) fresh.now) h other other p.0
                  p.1)
      ]

  -- Requests, one after the other.
  abbrev pub serve : List (Request × Fresh) → Desk → Desk
  serve [] d = d
  serve ((req, fresh) ∷ rest) d = serve rest (handle codec cfg req fresh d).1

  pub serve-Kept :
      (a k : Text) (x : ApiIdempotencyKey) (ks : List IntakeApiKey) (later : List (Request × Fresh))
      → (d : Desk) → Kept a k x ks d
      → Kept a k x ks (serve later d)
  serve-Kept a k x ks [] d h = h
  serve-Kept a k x ks ((req, fresh) ∷ rest) d h =
      serve-Kept a k x ks rest (handle codec cfg req fresh d).1 (handle-Kept a k x ks req fresh d h)
