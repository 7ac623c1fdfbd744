-- ===== src/Intake/Access.antt =====
-- Who may submit, and the claim of an idempotency key: `_authenticate`, `_claim_idempotency_key` and
-- `_finalize_idempotency_key` of routers/intake.py.
use jp_adopt_core.Prelude.{
  ℕ, ◌+◌, Bool, true, false, not, Option, none, some, List, [], ◌∷◌, if◌then◌else◌, ltb, ◌&&◌, ◌||◌,
  take,
}
use jp_adopt_core.Text.{Text, text_eq, codes, strip}
use jp_adopt_core.Intake.Rows.{
  IntakeApiKey, Body, error, Response, KeyState, ApiIdempotencyKey, pending, completed, Desk,
  Settings, Escape, type_error,
}
use jp_adopt_core.Intake.Email.{after}

-- The headers of a request that the handler reads, with the client's address.
pub record Caller : Type 0 where
  pub authorization : Option Text
  pub host : Option Text
  pub user_agent : Option Text

abbrev pub is_revoked : IntakeApiKey → Bool
is_revoked k = elim k.revoked_at [ none ↦ false | some _ ↦ true ]

-- The unrevoked row of a hash.
abbrev pub find_api_key : Text → List IntakeApiKey → Option IntakeApiKey
find_api_key hash [] = none
find_api_key hash (k ∷ ks) =
    if text_eq k.key_hash hash && not (is_revoked k) then some k else find_api_key hash ks

-- The audit of the use, on that row.
abbrev pub touch_api_key : ℕ → Caller → Text → List IntakeApiKey → List IntakeApiKey
touch_api_key now caller hash [] = []
touch_api_key now caller hash (k ∷ ks) =
    if text_eq k.key_hash hash && not (is_revoked k)
    then record k {
      last_used_at = some now;
      last_used_ip = caller.host;
      last_used_user_agent = caller.user_agent;
    }
      ∷ ks
    else k ∷ touch_api_key now caller hash ks

abbrev pub starts_with : Text → Text → Bool
starts_with [] t = true
starts_with (c ∷ cs) [] = false
starts_with (c ∷ cs) (d ∷ ds) = text_eq (c ∷ []) (d ∷ []) && starts_with cs ds

abbrev pub is_ascii : Text → Bool
is_ascii [] = true
is_ascii (c ∷ cs) = ltb c 128 && is_ascii cs

-- Who calls: nobody, the label of a key, or the TypeError of `compare_digest`.
pub data Identity : Type 0 where
  nobody : Identity
  label : Text → Identity
  raised : Escape → Identity

-- The loop over the allowlist; `compare_digest` takes texts in ASCII only.
abbrev pub match_candidate : Settings → Text → List Text → Identity
match_candidate cfg token [] = nobody
match_candidate cfg token (candidate ∷ rest) =
    if not (is_ascii candidate && is_ascii token)
    then raised type_error
    else if text_eq candidate token
    then label (take 16 (cfg.sha256 candidate))
    else match_candidate cfg token rest

-- The token's rows of the database before the allowlist.
abbrev pub identify : Settings → Text → Option IntakeApiKey → Identity
identify cfg token (some k) = label (take 16 (cfg.sha256 token))
identify cfg token none = match_candidate cfg token cfg.intake_api_keys_list

abbrev pub bearer : Settings → Option Text → Option Text
bearer cfg none = none
bearer cfg (some header) =
    if starts_with (codes "bearer ") (cfg.unicode.lower header)
    then some (strip cfg.unicode (after 32 header))
    else none

abbrev pub identify_bearer : Settings → Option Text → List IntakeApiKey → Identity
identify_bearer cfg none keys = nobody
identify_bearer cfg (some []) keys = nobody
identify_bearer cfg (some (c ∷ cs)) keys =
    identify cfg (c ∷ cs) (find_api_key (cfg.sha256 (c ∷ cs)) keys)

abbrev pub touch_bearer : Settings → ℕ → Caller → Option Text → Desk → Desk
touch_bearer cfg now caller none d = d
touch_bearer cfg now caller (some []) d = d
touch_bearer cfg now caller (some (c ∷ cs)) d = record d {
  api_keys = touch_api_key now caller (cfg.sha256 (c ∷ cs)) d.api_keys;
}

-- `_authenticate`: the caller, and the tables with the use recorded.
unfoldable pub authenticate : Settings → ℕ → Caller → Desk → Identity × Desk
unfolding strip
authenticate cfg now caller d =
    let token = bearer cfg caller.authorization in
    (identify_bearer cfg token d.api_keys, touch_bearer cfg now caller token d)

abbrev pub any_active_key : List IntakeApiKey → Bool
any_active_key [] = false
any_active_key (k ∷ ks) = not (is_revoked k) || any_active_key ks

abbrev pub is_empty : {A : Type 0} → List A → Bool
is_empty [] = true
is_empty (x ∷ xs) = false

-- In production without any key the intake is closed.
abbrev pub is_closed : Settings → Desk → Bool
is_closed cfg d =
    cfg.is_production && is_empty cfg.intake_api_keys_list && not (any_active_key d.api_keys)

-- The row of a caller's key; `uq_api_idempotency_keys_apikey_key` is the pair's uniqueness.
abbrev pub find_claim : Text → Text → List ApiIdempotencyKey → Option ApiIdempotencyKey
find_claim api_key_id key [] = none
find_claim api_key_id key (r ∷ rs) =
    if text_eq r.api_key_id api_key_id && text_eq r.key key
    then some r
    else find_claim api_key_id key rs

abbrev pub new_claim : Text → Text → Text → ℕ → ApiIdempotencyKey
new_claim api_key_id key request_hash now = record {
  api_key_id = api_key_id;
  key = key;
  request_hash = request_hash;
  status_code = none;
  response_body = none;
  state = pending;
  created_at = now;
  completed_at = none;
  expires_at = now + 86400;
}

abbrev pub cached_status : Option ℕ → ℕ
cached_status none = 200
cached_status (some n) = if ltb 0 n then n else 200

abbrev pub in_flight : ℕ → Response
in_flight request_id = record {
  status_code = 409;
  body =
      error "idempotency_in_flight" request_id
        (some "A request with this Idempotency-Key is still processing.") none none;
}

abbrev pub replay_of : ℕ → KeyState → Option ℕ → Option Body → Response
replay_of request_id completed status_code (some body) = record {
  status_code = cached_status status_code;
  body = body;
}
replay_of request_id completed status_code none = in_flight request_id
replay_of request_id pending status_code body = in_flight request_id

-- The collision path: the answer to a request whose key is taken.
unfoldable pub collide : ℕ → Text → ApiIdempotencyKey → Response
collide request_id request_hash existing =
    if text_eq existing.request_hash request_hash
    then replay_of request_id existing.state existing.status_code existing.response_body
    else record {
      status_code = 422;
      body = error "idempotency_key_conflict" request_id none none none;
    }

-- `_finalize_idempotency_key`
abbrev pub complete : ℕ → Response → ApiIdempotencyKey → ApiIdempotencyKey
complete now r row = record row {
  state = completed;
  status_code = some r.status_code;
  response_body = some r.body;
  completed_at = some now;
}

abbrev pub finalize : Text → Text → ℕ → Response → List ApiIdempotencyKey → List ApiIdempotencyKey
finalize api_key_id key now r [] = []
finalize api_key_id key now r (row ∷ rows) =
    if text_eq row.api_key_id api_key_id && text_eq row.key key
    then complete now r row ∷ rows
    else row ∷ finalize api_key_id key now r rows
