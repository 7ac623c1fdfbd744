-- ===== src/Magic/Link.antt =====
-- The request of a link, its claim, and the two endpoints.
use jp_adopt_core.Prelude.{
  ℕ, ◌+◌, Bool, true, false, not, Option, none, some, List, [], ◌∷◌, ◌++◌, if◌then◌else◌, ◌==◌, leb,
  ◌&&◌, ◌||◌,
}
use jp_adopt_core.Text.{Text, text_eq, strip, codes}
use jp_adopt_core.Http.{HttpError, Outcome, done, fail, http_error, internal_server_error}
use jp_adopt_core.Magic.Rows.{
  MagicLinkToken, MagicLinkRateLimit, IdentityLink, Vault, Claims, Settings, magic_link_ttl_seconds,
  magic_link_rate_limit_per_hour, magic_link_rate_limit_window, magic_link_jwt_ttl_seconds,
  normalize_email, hash_token, find_token, update_token, find_identity,
}

-- The exceptions; `integrity` is that of the unique hash.
pub data MagicError : Type 0 where
  rate_limited expired already_claimed invalid account_conflict integrity : MagicError

pub data Reply (A : Type 0) : Type 0 where
  ok : A → Reply A
  err : MagicError → Reply A

-- What `secrets`, `uuid4` and the two readings of the clock return.
pub record Fresh : Type 0 where
  pub raw : Text
  pub token_id : ℕ
  pub request_id : ℕ
  pub counted_at : ℕ
  pub now : ℕ

-- The rows of an address from one hour before a time on.
abbrev pub is_recent : Text → ℕ → MagicLinkRateLimit → Bool
is_recent email now r =
    text_eq r.email_normalized email && leb now (r.requested_at + magic_link_rate_limit_window)

-- `_count_recent_requests`
abbrev pub count_recent : Text → ℕ → List MagicLinkRateLimit → ℕ
count_recent email now [] = 0
count_recent email now (r ∷ rs) =
    (if is_recent email now r then 1 else 0) + count_recent email now rs

abbrev pub new_token : Settings → Fresh → Text → Option Text → MagicLinkToken
new_token cfg fresh email ip = record {
  id = fresh.token_id;
  email = email;
  email_normalized = normalize_email cfg.unicode email;
  token_hash = hash_token cfg fresh.raw;
  expires_at = fresh.now + magic_link_ttl_seconds;
  requested_ip = ip;
  requested_at = fresh.now;
  claimed_at = none;
  claimed_ip = none;
  claimed_user_agent = none;
}

abbrev pub new_request : Settings → Fresh → Text → MagicLinkRateLimit
new_request cfg fresh email = record {
  id = fresh.request_id;
  email_normalized = normalize_email cfg.unicode email;
  requested_at = fresh.now;
}

-- `session.add` of both rows and the flush.
abbrev pub insert_unless :
    Option MagicLinkToken → MagicLinkToken → MagicLinkRateLimit → Vault → Reply (Unit {0}) × Vault
insert_unless none t r v =
    (ok tt, record v { tokens = v.tokens ++ t ∷ []; requests = v.requests ++ r ∷ [] })
insert_unless (some _) t r v = (err integrity, v)

abbrev pub insert_link : MagicLinkToken → MagicLinkRateLimit → Vault → Reply (Unit {0}) × Vault
insert_link t r v = insert_unless (find_token t.token_hash v.tokens) t r v

abbrev pub answer : Text → Reply (Unit {0}) × Vault → Reply Text × Vault
answer raw (ok _, v) = (ok raw, v)
answer raw (err e, v) = (err e, v)

-- `request_magic_link`, under the address's advisory lock; the answer is the raw token.
unfoldable pub request_magic_link :
    Settings → Fresh → Text → Option Text → Vault → Reply Text × Vault
unfolding normalize_email
request_magic_link cfg fresh email ip v =
    if leb magic_link_rate_limit_per_hour
      (count_recent (normalize_email cfg.unicode email) fresh.counted_at v.requests)
    then (err rate_limited, v)
    else answer fresh.raw
        (insert_link (new_token cfg fresh email ip) (new_request cfg fresh email) v)

-- The arguments of a claim.
pub record Click : Type 0 where
  pub raw_token : Text
  pub click_ip : Option Text
  pub user_agent : Option Text
  pub now : ℕ
  pub identity_id : ℕ
  pub linked_at : ℕ

abbrev pub mark_claimed : Click → MagicLinkToken → MagicLinkToken
mark_claimed click t = record t {
  claimed_at = some click.now;
  claimed_ip = click.click_ip;
  claimed_user_agent = click.user_agent;
}

-- The CAS lost: the follow-up read says why.
abbrev pub why_lost : ℕ → Option MagicLinkToken → MagicError
why_lost now none = invalid
why_lost now (some t) = if leb t.expires_at now then expired else already_claimed

-- `if existing.b2c_subject_id`
abbrev pub truthy : Option Text → Bool
truthy none = false
truthy (some []) = false
truthy (some (c ∷ cs)) = true

abbrev pub new_identity : Click → MagicLinkToken → IdentityLink
new_identity click t = record {
  id = click.identity_id;
  b2c_subject_id = none;
  email = t.email;
  email_normalized = t.email_normalized;
  idp_name = codes "magic_link";
  linked_at = click.linked_at;
}

-- The bridge to the identity: the identity that signs in.
abbrev pub bridge_to :
    Click → MagicLinkToken → Option IdentityLink → Vault → Reply IdentityLink × Vault
bridge_to click t none v =
    (ok (new_identity click t), record v { identities = v.identities ++ new_identity click t ∷ [] })
bridge_to click t (some i) v =
    if truthy i.b2c_subject_id then (err account_conflict, v) else (ok i, v)

abbrev pub bridge : Click → MagicLinkToken → Vault → Reply IdentityLink × Vault
bridge click t v = bridge_to click t (find_identity t.email_normalized v.identities) v

abbrev pub claims_of : Settings → Click → IdentityLink → Claims
claims_of cfg click i = record {
  iss = cfg.magic_link_issuer;
  sub = i.id;
  email = i.email;
  iat = click.now;
  exp = click.now + magic_link_jwt_ttl_seconds;
}

abbrev pub access_token : Settings → Click → IdentityLink → Text
access_token cfg click i = cfg.jwt_encode (claims_of cfg click i) cfg.magic_link_signing_key

abbrev pub sign : (IdentityLink → Text) → Reply IdentityLink × Vault → Reply Text × Vault
sign f (ok i, v) = (ok (f i), v)
sign f (err e, v) = (err e, v)

-- The claim of a row that the CAS has won; `t` is the row from before.
abbrev pub finish_claim : Settings → Click → MagicLinkToken → Vault → Reply Text × Vault
finish_claim cfg click t v =
    if leb t.expires_at click.now
    then (err expired, v)
    else sign (access_token cfg click) (bridge click t v)

abbrev pub is_claimed : MagicLinkToken → Bool
is_claimed t = elim t.claimed_at [ none ↦ false | some _ ↦ true ]

abbrev pub claimed_vault : Click → Text → Vault → Vault
claimed_vault click hash v = record v { tokens = update_token hash (mark_claimed click) v.tokens }

abbrev pub claim_found :
    Settings → Click → Text → Option MagicLinkToken → Vault → Reply Text × Vault
claim_found cfg click hash none v = (err (why_lost click.now none), v)
claim_found cfg click hash (some t) v =
    if is_claimed t
    then (err (why_lost click.now (some t)), v)
    else finish_claim cfg click t (claimed_vault click hash v)

-- `claim_magic_link`; the answer is the access token.
unfoldable pub claim_magic_link : Settings → Click → Vault → Reply Text × Vault
claim_magic_link cfg click v =
    let hash = hash_token cfg click.raw_token in
    claim_found cfg click hash (find_token hash v.tokens) v

-- The statuses of the two endpoints.
abbrev pub magic_http : MagicError → HttpError
magic_http rate_limited = http_error 429 "rate_limited"
magic_http expired = http_error 410 "expired"
magic_http already_claimed = http_error 410 "already_claimed"
magic_http invalid = http_error 400 "invalid_token"
magic_http account_conflict = http_error 403 "account_resolution_conflict"
magic_http integrity = internal_server_error

-- The commit, or the rollback and the HTTPException.
abbrev pub settle : {A : Type 0} → Vault → Reply A × Vault → Outcome A × Vault
settle before (ok a, v) = (done a, v)
settle before (err e, v) = (fail (magic_http e), before)

-- `c in text`
abbrev pub has_char : ℕ → Text → Bool
has_char c [] = false
has_char c (d ∷ ds) = d == c || has_char c ds

-- The token that goes to the mail task.
abbrev pub mailed : Outcome Text × Vault → Outcome (Option Text) × Vault
mailed (done raw, v) = (done (some raw), v)
mailed (fail e, v) = (fail e, v)

-- `request_link`: the raw token that is mailed, or none for an obviously malformed address, which is
-- answered alike.
unfoldable pub request_link :
    Settings → Fresh → Text → Option Text → Vault → Outcome (Option Text) × Vault
unfolding request_magic_link strip
request_link cfg fresh email ip v =
    let trimmed = strip cfg.unicode email in
    if not (has_char 64 trimmed) || not (has_char 46 trimmed)
    then (done none, v)
    else mailed (settle v (request_magic_link cfg fresh trimmed ip v))

-- `claim_link`
unfoldable pub claim_link : Settings → Click → Vault → Outcome Text × Vault
unfolding claim_magic_link
claim_link cfg click v = settle v (claim_magic_link cfg click v)
