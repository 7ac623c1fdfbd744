-- ===== src/Magic/Rows.antt =====
-- The tables of the side-car, the settings, and what it takes from the cryptographic libraries.
use jp_adopt_core.Prelude.{ℕ, Option, none, some, List, [], ◌∷◌, ◌++◌, if◌then◌else◌, ◌==◌}
use mathlib.Core.List.{reverse}
use jp_adopt_core.Text.{Text, Unicode, strip, text_eq}

pub record MagicLinkToken : Type 0 where
  pub id : ℕ
  pub email : Text
  pub email_normalized : Text
  pub token_hash : Text
  pub expires_at : ℕ
  pub requested_ip : Option Text
  pub requested_at : ℕ
  pub claimed_at : Option ℕ
  pub claimed_ip : Option Text
  pub claimed_user_agent : Option Text

pub record MagicLinkRateLimit : Type 0 where
  pub id : ℕ
  pub email_normalized : Text
  pub requested_at : ℕ

pub record IdentityLink : Type 0 where
  pub id : ℕ
  pub b2c_subject_id : Option Text
  pub email : Text
  pub email_normalized : Text
  pub idp_name : Text
  pub linked_at : ℕ

-- The three tables; the identities stand in the order of `linked_at`.
pub record Vault : Type 0 where
  pub tokens : List MagicLinkToken
  pub requests : List MagicLinkRateLimit
  pub identities : List IdentityLink

-- The payload of the JWT; its provider is always `magic_link`.
pub record Claims : Type 0 where
  pub iss : Text
  pub sub : ℕ
  pub email : Text
  pub iat : ℕ
  pub exp : ℕ

-- The settings, with SHA-256 on code points and the encoding of a JWT under the signing key.
pub record Settings : Type 0 where
  pub unicode : Unicode
  pub magic_link_signing_key : Text
  pub magic_link_issuer : Text
  pub sha256 : Text → Text
  pub jwt_encode : Claims → Text → Text

abbrev pub magic_link_ttl_seconds : ℕ
magic_link_ttl_seconds = 900

abbrev pub magic_link_rate_limit_per_hour : ℕ
magic_link_rate_limit_per_hour = 6

-- `MAGIC_LINK_RATE_LIMIT_WINDOW`, in seconds.
abbrev pub magic_link_rate_limit_window : ℕ
magic_link_rate_limit_window = 3600

abbrev pub magic_link_jwt_ttl_seconds : ℕ
magic_link_jwt_ttl_seconds = 604800

-- `rstrip(".")`
abbrev pub drop_dots : Text → Text
drop_dots [] = []
drop_dots (c ∷ cs) = if c == 46 then drop_dots cs else c ∷ cs

-- `normalize_email`
unfoldable pub normalize_email : Unicode → Text → Text
unfolding strip
normalize_email u raw = u.lower (reverse (drop_dots (reverse (strip u raw))))

-- `_hash_token`
abbrev pub hash_token : Settings → Text → Text
hash_token cfg raw = cfg.sha256 (raw ++ 0 ∷ cfg.magic_link_signing_key)

-- Lookups by the token's hash; the column is unique.
abbrev pub find_token : Text → List MagicLinkToken → Option MagicLinkToken
find_token hash [] = none
find_token hash (t ∷ ts) = if text_eq t.token_hash hash then some t else find_token hash ts

-- `UPDATE … WHERE token_hash = …`
abbrev pub update_token :
    Text → (MagicLinkToken → MagicLinkToken) → List MagicLinkToken → List MagicLinkToken
update_token hash f [] = []
update_token hash f (t ∷ ts) =
    if text_eq t.token_hash hash then f t ∷ ts else t ∷ update_token hash f ts

-- The oldest identity of an address.
abbrev pub find_identity : Text → List IdentityLink → Option IdentityLink
find_identity email [] = none
find_identity email (i ∷ is) =
    if text_eq i.email_normalized email then some i else find_identity email is
