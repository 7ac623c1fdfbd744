-- ===== src/Intake/Replay.antt =====
-- A request that was answered is answered again from the table of idempotency keys.
use jp_adopt_core.Prelude.{ℕ, ◌≡◌, refl, sym, ap, ◌∙◌, none, some, List, [], ◌∷◌, ◌++◌, inl, arith}
use mathlib.Core.Path.{subst}
use jp_adopt_core.Text.{text_eq_iff}
use jp_adopt_core.Intake.Rows.{
  Response, ApiIdempotencyKey, Fresh, Settings, Codec, Desk, Result, ok, err, invalid, escaped,
}
use jp_adopt_core.Intake.Access.{cached_status, find_claim, new_claim, collide, complete}
use jp_adopt_core.Intake.Process.{IntakeOutcome}
use jp_adopt_core.Intake.Request.{
  Request, Answer, reply, crash, Ticket, admit, commit_claim, claimed, run_ticket, handle, process,
  close_claim, respond,
}
use jp_adopt_core.Intake.Callers.{SameKeys, admit-same}
use jp_adopt_core.Intake.Claims.{find_claim-append, find_claim-finalize}
use jp_adopt_core.Intake.Served.{Kept, processed, serve, serve-Kept}

module _ {J : Type 0} (codec : Codec J) (cfg : Settings) where
  -- What a first answer leaves: its row, finished.
  abbrev row_of : Request → Ticket → Fresh → Response → ApiIdempotencyKey
  row_of req t fresh r =
      complete fresh.now r (new_claim t.api_key_id t.key (cfg.sha256 req.raw) fresh.now)

  commit-first :
      (req : Request) (t : Ticket) (fresh : Fresh) (before : Desk) (x : Result IntakeOutcome × Desk)
      → (r : Response) → find_claim t.api_key_id t.key before.idempotency ≡ none
      → x.1.idempotency
        ≡ before.idempotency ++ new_claim t.api_key_id t.key (cfg.sha256 req.raw) fresh.now ∷ []
      → SameKeys before.api_keys x.1.api_keys
      → (commit_claim codec cfg t fresh before x).0 ≡ reply r
      → Kept t.api_key_id t.key
          (row_of req t fresh r)
          before.api_keys
          (commit_claim codec cfg t fresh before x).1
  commit-first req t fresh before (x, d) r free e same h = go (respond fresh.request_id x) h
    where
      found :
          find_claim t.api_key_id t.key d.idempotency
          ≡ some (new_claim t.api_key_id t.key (cfg.sha256 req.raw) fresh.now)
      found =
          ap (find_claim t.api_key_id t.key) e
          ∙ rw
              (
                find_claim-append t.api_key_id t.key before.idempotency
                    (new_claim t.api_key_id t.key (cfg.sha256 req.raw) fresh.now),
                free,
                (text_eq_iff t.api_key_id t.api_key_id).1 refl,
                (text_eq_iff t.key t.key).1 refl,
              )
              refl

      go :
          (s : Answer)
          → (close_claim t fresh before d s).0 ≡ reply r
          → Kept t.api_key_id t.key
              (row_of req t fresh r)
              before.api_keys
              (close_claim t fresh before d s).1
      go (reply b) g =
          let same_reply : b ≡ r = cc in
          (
            rw same_reply
                (find_claim-finalize t.api_key_id t.key fresh.now r d.idempotency _ found),
            same,
          )
      go (crash c) g = absurd (ground arith)

  respond_positive :
      (i : ℕ) (x : Result IntakeOutcome) (r : Response)
      → respond i x ≡ reply r
      → record { status_code = cached_status (some r.status_code); body = r.body } ≡ r
  respond_positive i (ok o) r h = ground arith
  respond_positive i (err (invalid message fields)) r h = ground arith
  respond_positive i (err (escaped e)) r h = ground arith

  committed :
      (t : Ticket) (fresh : Fresh) (before : Desk) (x : Result IntakeOutcome × Desk) (r : Response)
      → (commit_claim codec cfg t fresh before x).0 ≡ reply r
      → respond fresh.request_id x.0 ≡ reply r
  committed t fresh before (x, d) r h = go (respond fresh.request_id x) h
    where
      go : (s : Answer) → (close_claim t fresh before d s).0 ≡ reply r → s ≡ reply r
      go (reply b) g = g
      go (crash c) g = g

  collide-row :
      (i : ℕ) (req : Request) (t : Ticket) (fresh : Fresh) (r : Response)
      → collide i (cfg.sha256 req.raw) (row_of req t fresh r)
        ≡ record { status_code = cached_status (some r.status_code); body = r.body }
  unfolding collide
  collide-row i req t fresh r = rw (text_eq_iff (cfg.sha256 req.raw) (cfg.sha256 req.raw)).1 refl

  run_taken :
      (req : Request) (fresh : Fresh) (d : Desk) (t : Ticket) (x : ApiIdempotencyKey)
      → find_claim t.api_key_id t.key d.idempotency ≡ some x
      → run_ticket codec cfg req fresh d t
        ≡ (reply (collide fresh.request_id (cfg.sha256 req.raw) x), d)
  run_taken req fresh d t x h = rw (h, run_ticket)

  run_free :
      (req : Request) (fresh : Fresh) (d : Desk) (t : Ticket)
      → find_claim t.api_key_id t.key d.idempotency ≡ none
      → run_ticket codec cfg req fresh d t
        ≡ commit_claim codec cfg t fresh d
            (process cfg fresh req.domain t.payload (claimed codec cfg req t fresh d))
  run_free req fresh d t h = rw (h, run_ticket)

  handle-inl :
      (req : Request) (fresh : Fresh) (d : Desk) (t : Ticket)
      → admit codec cfg req fresh d ≡ inl t
      → handle codec cfg req fresh d ≡ run_ticket codec cfg req fresh d t
  unfolding handle
  handle-inl req fresh d t h = rw (h, handle)

  -- A request that passed the checks under a new idempotency key and was answered, is answered the
  -- same when it is sent again, whatever requests came between, at whatever time, and the second
  -- sending changes no table.
  pub replay_same :
      (req : Request) (fresh fresh' : Fresh) (d : Desk) (t : Ticket) (r : Response)
      → (later : List (Request × Fresh)) → admit codec cfg req fresh d ≡ inl t
      → find_claim t.api_key_id t.key d.idempotency ≡ none
      → (handle codec cfg req fresh d).0 ≡ reply r
      → let d' = serve codec cfg later (handle codec cfg req fresh d).1 in
        handle codec cfg req fresh' d' ≡ (reply r, d')
  replay_same req fresh fresh' d t r later ready free answered =
      let run = handle-inl req fresh d t ready ∙ run_free req fresh d t free in
      let x = process cfg fresh req.domain t.payload (claimed codec cfg req t fresh d) in
      let p = processed codec cfg req t fresh d d.api_keys (λ hash. refl, refl) in
      let reached : (commit_claim codec cfg t fresh d x).0 ≡ reply r =
        ap (λ (y : Answer × Desk). y.0) (sym run) ∙ answered in
      let first = commit-first req t fresh d x r free p.0 p.1 reached in
      let kept =
        serve-Kept codec cfg t.api_key_id t.key (row_of req t fresh r) d.api_keys later
          (handle codec cfg req fresh d).1
          (subst
            (λ (y : Answer × Desk). Kept t.api_key_id t.key (row_of req t fresh r) d.api_keys y.1)
            (sym run) first) in
      let d' = serve codec cfg later (handle codec cfg req fresh d).1 in
      handle-inl req fresh' d' t (admit-same codec cfg req fresh fresh' d d' t kept.1 ready)
      ∙ run_taken req fresh' d' t (row_of req t fresh r) kept.0
      ∙ ap (λ (y : Response). (reply y, d'))
          (collide-row fresh'.request_id req t fresh r
            ∙ respond_positive fresh.request_id x.0 r (committed t fresh d x r reached))
