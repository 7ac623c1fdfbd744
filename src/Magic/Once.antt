-- ===== src/Magic/Once.antt =====
-- A link serves once.
use jp_adopt_core.Prelude.{
  ℕ, ◌≡◌, refl, true, not, Option, none, some, List, [], ◌∷◌, ◌++◌, leb, ◌||◌, arith, Bool-cases,
  inl, inr, sym,
}
use mathlib.Core.Path.{subst}
use jp_adopt_core.Text.{Text, text_eq, strip}
use jp_adopt_core.Http.{HttpError, done, fail}
use jp_adopt_core.Magic.Rows.{
  MagicLinkToken, IdentityLink, Vault, Settings, hash_token, find_token, update_token,
  find_identity, normalize_email, magic_link_rate_limit_per_hour,
}
use jp_adopt_core.Magic.Link.{
  count_recent, Reply, ok, err, Fresh, Click, mark_claimed, why_lost, truthy, bridge_to, sign,
  access_token, is_claimed, claimed_vault, claim_found, claim_magic_link, magic_http, settle,
  request_link, claim_link, request_magic_link, new_token, new_request, insert_unless, answer,
  has_char,
}
use jp_adopt_core.Magic.Limit.{settle_keeps, mailed_keeps}
use jp_adopt_core.Magic.Claim.{claim_link_succeeds}

-- The token's row is claimed.
abbrev pub IsSpent : Text → Vault → Type 0
IsSpent hash v = (t : MagicLinkToken) × (find_token hash v.tokens ≡ some t) × (is_claimed t ≡ true)

-- A request of one of the endpoints.
pub data Step (cfg : Settings) (v : Vault) : Vault → Type 0 where
  requests :
      (fresh : Fresh) (email : Text) (ip : Option Text)
      → Step cfg v (request_link cfg fresh email ip v).1
  claims : (click : Click) → Step cfg v (claim_link cfg click v).1

pub data Reach (cfg : Settings) (v : Vault) : Vault → Type 0 where
  start : Reach cfg v v
  next : {u w : Vault} → Reach cfg v u → Step cfg u w → Reach cfg v w

update_token-spent :
    (hash other : Text) (click : Click) (ts : List MagicLinkToken) (t : MagicLinkToken)
    → find_token hash ts ≡ some t
    → is_claimed t ≡ true
    → (u : MagicLinkToken) × (find_token hash (update_token other (mark_claimed click) ts) ≡ some u)
      × (is_claimed u ≡ true)
update_token-spent hash other click [] t f c = absurd (ground arith)
update_token-spent hash other click (x ∷ ts) t f c =
    elim (Bool-cases (text_eq x.token_hash other)) [
      | inl o ↦ rw o (elim (Bool-cases (text_eq x.token_hash hash)) [
        | inl e ↦ (mark_claimed click x, rw e refl, refl)
        | inr e ↦ (t, rw e (rw e at f), c)
      ])
      | inr o ↦ rw o (elim (Bool-cases (text_eq x.token_hash hash)) [
        | inl e ↦ (t, rw e (rw e at f), c)
        | inr e ↦
            let (u, g, d) = update_token-spent hash other click ts t (rw e at f) c in (u, rw e g, d)
      ])
    ]

find_token-append :
    (hash : Text) (ts us : List MagicLinkToken) (t : MagicLinkToken)
    → find_token hash ts ≡ some t
    → find_token hash (ts ++ us) ≡ some t
find_token-append hash [] us t f = absurd (ground arith)
find_token-append hash (x ∷ ts) us t f = ground (arith, find_token-append hash ts us t)

sign_keeps :
    (hash : Text) (click : Click) (t : MagicLinkToken) (f : IdentityLink → Text)
    → (o : Option IdentityLink) (w : Vault) → IsSpent hash w
    → IsSpent hash (sign f (bridge_to click t o w)).1
sign_keeps hash click t f none w h = h
sign_keeps hash click t f (some i) w h = elim (Bool-cases (truthy i.b2c_subject_id)) [
  | inl e ↦ rw e h
  | inr e ↦ rw e h
]

found_keeps :
    (cfg : Settings) (hash : Text) (click : Click) (v : Vault) (o : Option MagicLinkToken)
    → IsSpent hash v
    → IsSpent hash (claim_found cfg click (hash_token cfg click.raw_token) o v).1
found_keeps cfg hash click v none h = h
found_keeps cfg hash click v (some t) h =
    let other = hash_token cfg click.raw_token in
    let w = claimed_vault click other v in
    let spent : IsSpent hash w = update_token-spent hash other click v.tokens h.0 h.1 h.2 in
    elim (Bool-cases (is_claimed t)) [
      | inl c ↦ rw c h
      | inr c ↦ rw c (elim (Bool-cases (leb t.expires_at click.now)) [
        | inl l ↦ rw l spent
        | inr l ↦ rw l (
            sign_keeps hash click t (access_token cfg click)
              (find_identity t.email_normalized v.identities) w spent)
      ])
    ]

-- A claimed row stays claimed.
claim-IsSpent :
    (cfg : Settings) (hash : Text) (click : Click) (v : Vault)
    → IsSpent hash v
    → IsSpent hash (claim_link cfg click v).1
unfolding claim_link
claim-IsSpent cfg hash click v h =
    settle_keeps (IsSpent hash) v (claim_magic_link cfg click v) h
      (found_keeps cfg hash click v (find_token (hash_token cfg click.raw_token) v.tokens) h)

issue-IsSpent :
    (cfg : Settings) (hash : Text) (fresh : Fresh) (email : Text) (ip : Option Text) (v : Vault)
    → IsSpent hash v
    → IsSpent hash (request_magic_link cfg fresh email ip v).1
unfolding request_magic_link
issue-IsSpent cfg hash fresh email ip v h =
    elim (Bool-cases (
      leb magic_link_rate_limit_per_hour
        (count_recent (normalize_email cfg.unicode email) fresh.counted_at v.requests))) [
          | inl full ↦ rw full h
          | inr free ↦ rw free (go (find_token (new_token cfg fresh email ip).token_hash v.tokens))
        ]
  where
    go :
        (o : Option MagicLinkToken)
        → IsSpent hash
            (answer fresh.raw
              (insert_unless o (new_token cfg fresh email ip) (new_request cfg fresh email) v)).1
    go none =
        (h.0, find_token-append hash v.tokens (new_token cfg fresh email ip ∷ []) h.0 h.1, h.2)
    go (some _) = h

request-IsSpent :
    (cfg : Settings) (hash : Text) (fresh : Fresh) (email : Text) (ip : Option Text) (v : Vault)
    → IsSpent hash v
    → IsSpent hash (request_link cfg fresh email ip v).1
unfolding request_link
request-IsSpent cfg hash fresh email ip v h =
    let trimmed = strip cfg.unicode email in
    elim (Bool-cases (not (has_char 64 trimmed) || not (has_char 46 trimmed))) [
      | inl e ↦ rw e h
      | inr e ↦ rw e (
          mailed_keeps (IsSpent hash) _ (
            settle_keeps (IsSpent hash) v (request_magic_link cfg fresh trimmed ip v) h
              (issue-IsSpent cfg hash fresh trimmed ip v h)))
    ]

Reach-IsSpent :
    (cfg : Settings) (hash : Text) {v u : Vault} → Reach cfg v u → IsSpent hash v → IsSpent hash u
Reach-IsSpent cfg hash start h = h
Reach-IsSpent cfg hash (next {u = u} r (requests fresh email ip)) h =
    request-IsSpent cfg hash fresh email ip u (Reach-IsSpent cfg hash r h)
Reach-IsSpent cfg hash (next {u = u} r (claims click)) h =
    claim-IsSpent cfg hash click u (Reach-IsSpent cfg hash r h)

update_token-own :
    (hash : Text) (click : Click) (ts : List MagicLinkToken) (t : MagicLinkToken)
    → find_token hash ts ≡ some t
    → (u : MagicLinkToken) × (find_token hash (update_token hash (mark_claimed click) ts) ≡ some u)
      × (is_claimed u ≡ true)
update_token-own hash click [] t f = absurd (ground arith)
update_token-own hash click (x ∷ ts) t f = elim (Bool-cases (text_eq x.token_hash hash)) [
  | inl e ↦ (mark_claimed click x, rw e (rw e refl), refl)
  | inr e ↦ let (u, g, d) = update_token-own hash click ts t (rw e at f) in (u, rw e (rw e g), d)
]

committed :
    {A : Type 0} (v : Vault) (r : Reply A × Vault) (a : A)
    → (settle v r).0 ≡ done a
    → (settle v r).1 ≡ r.1
committed v (ok b, w) a h = refl
committed v (err e, w) a h = absurd (ground arith)

success_spends :
    (cfg : Settings) (click : Click) (v : Vault) (a : Text)
    → (claim_link cfg click v).0 ≡ done a
    → IsSpent (hash_token cfg click.raw_token) (claim_link cfg click v).1
unfolding claim_link
success_spends cfg click v a h =
    let hash = hash_token cfg click.raw_token in
    let (t, f, c, l, _, _) = (claim_link_succeeds cfg click v a).0 h in
    let w = claimed_vault click hash v in
    subst (IsSpent hash) (sym (committed v (claim_magic_link cfg click v) a h)) (
      rw (f, c, l)
        (sign_keeps hash click t (access_token cfg click)
          (find_identity t.email_normalized v.identities) w
          (update_token-own hash click v.tokens t f)))

gone : (now : ℕ) (t : MagicLinkToken) → (magic_http (why_lost now (some t))).status_code ≡ 410
gone now t = elim (Bool-cases (leb t.expires_at now)) [ inl e ↦ rw e refl | inr e ↦ rw e refl ]

spent_answers :
    (cfg : Settings) (click : Click) (v : Vault)
    → IsSpent (hash_token cfg click.raw_token) v
    → (e : HttpError) × ((claim_link cfg click v).0 ≡ fail e) × (e.status_code ≡ 410)
unfolding claim_link
spent_answers cfg click v (t, f, c) =
    (magic_http (why_lost click.now (some t)), rw (f, c) refl, gone click.now t)

-- After a claim that succeeded, whatever requests and claims follow, a second claim of the same token is
-- answered by 410.
pub claim_once :
    (cfg : Settings) (click again : Click) (v u : Vault) (a : Text)
    → (claim_link cfg click v).0 ≡ done a
    → Reach cfg (claim_link cfg click v).1 u
    → again.raw_token ≡ click.raw_token
    → (e : HttpError) × ((claim_link cfg again u).0 ≡ fail e) × (e.status_code ≡ 410)
claim_once cfg click again v u a h r same = spent_answers cfg again u (
    subst (λ (raw : Text). IsSpent (hash_token cfg raw) u) (sym same)
      (Reach-IsSpent cfg (hash_token cfg click.raw_token) r (success_spends cfg click v a h)))
