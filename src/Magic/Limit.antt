-- ===== src/Magic/Limit.antt =====
-- The rate limit: a rolling hour never holds more than six requests of one address.
use jp_adopt_core.Prelude.{
  ℕ, ◌+◌, ◌≤◌, ◌≡◌, refl, Bool, false, Option, none, some, List, [], ◌∷◌, ◌++◌, if◌then◌else◌, leb,
  not, ◌||◌, ◌&&◌, arith, Bool-cases, inl, inr, sym, ◌∙◌,
}
use mathlib.Core.Path.{subst}
use jp_adopt_core.Text.{Text, text_eq_iff, strip}
use jp_adopt_core.Http.{Outcome, done, fail}
use jp_adopt_core.Magic.Rows.{
  MagicLinkRateLimit, MagicLinkToken, Vault, Settings, magic_link_rate_limit_per_hour,
  normalize_email, find_token,
}
use jp_adopt_core.Magic.Link.{
  answer, insert_unless, Reply, ok, err, settle, mailed, has_char, Fresh, is_recent, count_recent,
  new_token, new_request, request_magic_link, request_link,
}

-- The requests of an address in the hour that ends at a time.
abbrev pub in_hour : Text → ℕ → MagicLinkRateLimit → Bool
in_hour email end r = is_recent email end r && leb r.requested_at end

abbrev pub count_hour : Text → ℕ → List MagicLinkRateLimit → ℕ
count_hour email end [] = 0
count_hour email end (r ∷ rs) = (if in_hour email end r then 1 else 0) + count_hour email end rs

abbrev pub IsLimited : List MagicLinkRateLimit → Type 0
IsLimited rs = (email : Text) (end : ℕ) → count_hour email end rs ≤ magic_link_rate_limit_per_hour

count_hour-append :
    (email : Text) (end : ℕ) (rs : List MagicLinkRateLimit) (r : MagicLinkRateLimit)
    → count_hour email end (rs ++ r ∷ [])
      ≡ count_hour email end rs + (if in_hour email end r then 1 else 0)
count_hour-append email end [] r = omega arith
count_hour-append email end (x ∷ rs) r = omega (arith, count_hour-append email end rs r)

count_hour-count_recent :
    (email : Text) (end now : ℕ) (rs : List MagicLinkRateLimit)
    → now ≤ end
    → count_hour email end rs ≤ count_recent email now rs
count_hour-count_recent email end now [] h = omega arith
count_hour-count_recent email end now (r ∷ rs) h =
    ground (arith, count_hour-count_recent email end now rs h)

insert-IsLimited :
    (email : Text) (counted : ℕ) (rs : List MagicLinkRateLimit) (r : MagicLinkRateLimit)
    → leb magic_link_rate_limit_per_hour (count_recent email counted rs) ≡ false
    → r.email_normalized ≡ email
    → counted ≤ r.requested_at
    → IsLimited rs
    → IsLimited (rs ++ r ∷ [])
insert-IsLimited email counted rs r free at_email later h address end =
    elim (Bool-cases (in_hour address end r)) [
      | inr out ↦ ground (arith, count_hour-append address end rs r, h address end)
      | inl inside ↦
          let same : email ≡ address =
            sym at_email ∙ (text_eq_iff r.email_normalized address).0 (ground arith) in
          ground (
            arith,
            count_hour-append address end rs r,
            subst
                (λ (a : Text).
                  leb magic_link_rate_limit_per_hour (count_recent a counted rs) ≡ false)
                same free,
            count_hour-count_recent address end counted rs (ground arith),
          )
    ]

-- A property of the vault that holds before and after a call holds after its commit or rollback.
pub settle_keeps :
    {A : Type 0} (P : Vault → Type 0) (before : Vault) (r : Reply A × Vault)
    → P before
    → P r.1
    → P (settle before r).1
settle_keeps P before (ok a, v) p q = q
settle_keeps P before (err e, v) p q = p

pub mailed_keeps : (P : Vault → Type 0) (r : Outcome Text × Vault) → P r.1 → P (mailed r).1
mailed_keeps P (done a, v) p = p
mailed_keeps P (fail e, v) p = p

insert_keeps :
    (raw : Text) (o : Option MagicLinkToken) (t : MagicLinkToken) (r : MagicLinkRateLimit)
    (v : Vault)
    → IsLimited v.requests
    → IsLimited (v.requests ++ r ∷ [])
    → IsLimited (answer raw (insert_unless o t r v)).1.requests
insert_keeps raw none t r v h k = k
insert_keeps raw (some _) t r v h k = h

request_magic_link-IsLimited :
    (cfg : Settings) (fresh : Fresh) (email : Text) (ip : Option Text) (v : Vault)
    → fresh.counted_at ≤ fresh.now
    → IsLimited v.requests
    → IsLimited (request_magic_link cfg fresh email ip v).1.requests
unfolding request_magic_link
request_magic_link-IsLimited cfg fresh email ip v later h =
    let address = normalize_email cfg.unicode email in
    elim (Bool-cases
      (leb magic_link_rate_limit_per_hour (count_recent address fresh.counted_at v.requests))) [
        | inl full ↦ rw full h
        | inr free ↦ rw free (
            insert_keeps fresh.raw (find_token (new_token cfg fresh email ip).token_hash v.tokens)
              (new_token cfg fresh email ip) (new_request cfg fresh email) v h
              (insert-IsLimited address fresh.counted_at v.requests (new_request cfg fresh email)
                free refl later h))
      ]

-- If no hour holds more than six requests of one address, none does after a request for a link,
-- whatever its outcome, if the clock does not go back between its two readings.
pub request_link-IsLimited :
    (cfg : Settings) (fresh : Fresh) (email : Text) (ip : Option Text) (v : Vault)
    → fresh.counted_at ≤ fresh.now
    → IsLimited v.requests
    → IsLimited (request_link cfg fresh email ip v).1.requests
unfolding request_link
request_link-IsLimited cfg fresh email ip v later h =
    let trimmed = strip cfg.unicode email in
    elim (Bool-cases (not (has_char 64 trimmed) || not (has_char 46 trimmed))) [
      | inl e ↦ rw e h
      | inr e ↦ rw e (
          mailed_keeps (λ w. IsLimited w.requests) _
            (settle_keeps (λ w. IsLimited w.requests) v (request_magic_link cfg fresh trimmed ip v)
              h (request_magic_link-IsLimited cfg fresh trimmed ip v later h)))
    ]
