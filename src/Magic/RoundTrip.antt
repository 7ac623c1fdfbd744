-- ===== src/Magic/RoundTrip.antt =====
-- A link that was issued can be claimed.
use jp_adopt_core.Prelude.{
  ◌+◌, ◌<◌, ◌≡◌, refl, false, not, Option, none, some, List, [], ◌∷◌, ◌++◌, leb, ◌||◌, arith,
  Bool-cases, inl, inr, sym, ap, ◌∙◌,
}
use jp_adopt_core.Text.{Text, text_eq_iff, strip}
use jp_adopt_core.Http.{Outcome, done, fail}
use jp_adopt_core.Magic.Rows.{
  MagicLinkToken, Vault, Settings, find_token, find_identity, normalize_email,
  magic_link_ttl_seconds, magic_link_rate_limit_per_hour,
}
use jp_adopt_core.Magic.Link.{
  count_recent, Fresh, Click, access_token, settle, request_link, claim_link, request_magic_link,
  new_token, new_request, insert_unless, answer, mailed, has_char,
}
use jp_adopt_core.Magic.Claim.{is_anchored, signs_in, claim_link_succeeds}

-- The vault after a link was issued.
abbrev issued : Settings → Fresh → Text → Option Text → Vault → Vault
issued cfg fresh email ip v = record v {
  tokens = v.tokens ++ new_token cfg fresh email ip ∷ [];
  requests = v.requests ++ new_request cfg fresh email ∷ [];
}

abbrev raw_or : Text → Outcome (Option Text) → Text
raw_or raw (done (some x)) = x
raw_or raw (done none) = raw
raw_or raw (fail e) = raw

-- What the answer says, if it says that a link was issued.
abbrev Issues :
    Settings → Fresh → Text → Option Text → Vault → Outcome (Option Text) × Vault → Type 0
Issues cfg fresh email ip v (done (some raw), w) =
    (raw ≡ fresh.raw)
    × (w ≡ issued cfg fresh email ip v)
    × (find_token (new_token cfg fresh email ip).token_hash v.tokens ≡ none)
Issues cfg fresh email ip v (done none, w) = Unit
Issues cfg fresh email ip v (fail e, w) = Unit

insert-Issues :
    (cfg : Settings) (fresh : Fresh) (email : Text) (ip : Option Text) (v : Vault)
    → (o : Option MagicLinkToken)
    → find_token (new_token cfg fresh email ip).token_hash v.tokens ≡ o
    → Issues cfg fresh email ip v (
        mailed (
          settle v (
            answer fresh.raw
              (insert_unless o (new_token cfg fresh email ip) (new_request cfg fresh email) v))))
insert-Issues cfg fresh email ip v none e = (refl, refl, e)
insert-Issues cfg fresh email ip v (some _) e = tt

request-Issues :
    (cfg : Settings) (fresh : Fresh) (email : Text) (ip : Option Text) (v : Vault)
    → Issues cfg fresh (strip cfg.unicode email) ip v (request_link cfg fresh email ip v)
unfolding request_link request_magic_link
request-Issues cfg fresh email ip v =
    let trimmed = strip cfg.unicode email in
    elim (Bool-cases (not (has_char 64 trimmed) || not (has_char 46 trimmed))) [
      | inl e ↦ rw e tt
      | inr e ↦
          rw e
            (elim (Bool-cases (
              leb magic_link_rate_limit_per_hour
                (count_recent (normalize_email cfg.unicode trimmed) fresh.counted_at v.requests))) [
                  | inl full ↦ rw full tt
                  | inr free ↦ rw free (
                      insert-Issues cfg fresh trimmed ip v
                        (find_token (new_token cfg fresh trimmed ip).token_hash v.tokens) refl)
                ])
    ]

find_token-new :
    (ts : List MagicLinkToken) (t : MagicLinkToken)
    → find_token t.token_hash ts ≡ none
    → find_token t.token_hash (ts ++ t ∷ []) ≡ some t
find_token-new [] t h = rw ((text_eq_iff t.token_hash t.token_hash).1 refl) refl
find_token-new (x ∷ ts) t h = ground (arith, find_token-new ts t)

-- A link that was issued signs in: if the token that was mailed is claimed within fifteen minutes and its
-- address is not bound to another provider's subject, the claim is answered with an access token for
-- the oldest identity of the normalised address, or for a new one.
pub request_then_claim :
    (cfg : Settings) (fresh : Fresh) (email : Text) (ip : Option Text) (v : Vault) (raw : Text)
    → (click : Click) → (request_link cfg fresh email ip v).0 ≡ done (some raw)
    → click.raw_token ≡ raw
    → click.now < fresh.now + magic_link_ttl_seconds
    → let address = normalize_email cfg.unicode (strip cfg.unicode email) in
      is_anchored (find_identity address v.identities) ≡ false
      → let t = new_token cfg fresh (strip cfg.unicode email) ip in
        (claim_link cfg click (request_link cfg fresh email ip v).1).0
        ≡ done (
            access_token cfg click (
              signs_in click t (
                find_identity
                  (normalize_email cfg.unicode (strip cfg.unicode email))
                  v.identities)))
request_then_claim cfg fresh email ip v raw click h same soon free =
    go (request_link cfg fresh email ip v) (request-Issues cfg fresh email ip v) h
  where
    go :
        (r : Outcome (Option Text) × Vault)
        → Issues cfg fresh (strip cfg.unicode email) ip v r
        → r.0 ≡ done (some raw)
        → let t = new_token cfg fresh (strip cfg.unicode email) ip in
          (claim_link cfg click r.1).0
          ≡ done (
              access_token cfg click (
                signs_in click t (
                  find_identity
                    (normalize_email cfg.unicode (strip cfg.unicode email))
                    v.identities)))
    go (done (some raw'), w) (is_raw, is_w, new) e =
        let t = new_token cfg fresh (strip cfg.unicode email) ip in
        let v' = issued cfg fresh (strip cfg.unicode email) ip v in
        let sent : click.raw_token ≡ fresh.raw = same ∙ sym (ap (raw_or raw) e) ∙ is_raw in
        rw is_w (
          (claim_link_succeeds cfg click v' _).1 (
            t,
            (rw sent (find_token-new v.tokens t new)),
            refl,
            (ground (arith, soon)),
            free,
            refl,
          ))
    go (done none, w) i e = absurd (ground arith)
    go (fail x, w) i e = absurd (ground arith)
