-- ===== src/Magic/Claim.antt =====
-- When a claim succeeds.
use jp_adopt_core.Prelude.{
  ◌≡◌, ◌↔◌, refl, Bool, false, Option, none, some, leb, arith, Bool-cases, inl, inr, sym, ap, ◌∙◌,
}
use jp_adopt_core.Text.{Text}
use jp_adopt_core.Http.{done, fail}
use jp_adopt_core.Magic.Rows.{
  MagicLinkToken, IdentityLink, Vault, Settings, hash_token, find_token, find_identity,
}
use jp_adopt_core.Magic.Link.{
  Reply, ok, err, Click, truthy, new_identity, bridge_to, sign, access_token, is_claimed,
  claimed_vault, claim_found, claim_magic_link, settle, claim_link,
}

-- The identity is bound to another provider's subject.
abbrev pub is_anchored : Option IdentityLink → Bool
is_anchored none = false
is_anchored (some i) = truthy i.b2c_subject_id

-- The identity that a claim signs in.
abbrev pub signs_in : Click → MagicLinkToken → Option IdentityLink → IdentityLink
signs_in click t none = new_identity click t
signs_in click t (some i) = i

-- What a claim needs, and the access token it answers.
abbrev pub IsClaimable : Settings → Click → Vault → Text → Type 0
IsClaimable cfg click v a =
    (t : MagicLinkToken) × (find_token (hash_token cfg click.raw_token) v.tokens ≡ some t)
    × (is_claimed t ≡ false)
    × (leb t.expires_at click.now ≡ false)
    × (is_anchored (find_identity t.email_normalized v.identities) ≡ false)
    × (a
        ≡ access_token cfg click (signs_in click t (find_identity t.email_normalized v.identities)))

settled :
    {A : Type 0} (v : Vault) (r : Reply A × Vault) (a : A) → (settle v r).0 ≡ done a → r.0 ≡ ok a
settled v (ok b, w) a h = ap (λ o. elim o [ done c ↦ ok c | fail e ↦ ok b ]) h
settled v (err e, w) a h = absurd (ground arith)

ok_value : {A : Type 0} (a b : A) → ◌≡◌ {A = Reply A} (ok a) (ok b) → a ≡ b
ok_value a b e = ap (λ r. elim r [ ok c ↦ c | err _ ↦ a ]) e

signed :
    (cfg : Settings) (click : Click) (t : MagicLinkToken) (a : Text) (o : Option IdentityLink)
    (w : Vault)
    → (sign (access_token cfg click) (bridge_to click t o w)).0 ≡ ok a
    → (is_anchored o ≡ false) × (a ≡ access_token cfg click (signs_in click t o))
signed cfg click t a none w h = (refl, sym (ok_value _ a h))
signed cfg click t a (some i) w h = elim (Bool-cases (truthy i.b2c_subject_id)) [
  | inl e ↦ absurd (ground (arith, (rw e at h)))
  | inr e ↦ (e, sym (ok_value _ a (rw e at h)))
]

signs :
    (cfg : Settings) (click : Click) (t : MagicLinkToken) (o : Option IdentityLink) (v w : Vault)
    → is_anchored o ≡ false
    → (settle v (sign (access_token cfg click) (bridge_to click t o w))).0
      ≡ done (access_token cfg click (signs_in click t o))
signs cfg click t none v w h = refl
signs cfg click t (some i) v w h = rw h refl

found-IsClaimable :
    (cfg : Settings) (click : Click) (v : Vault) (a : Text) (o : Option MagicLinkToken)
    → find_token (hash_token cfg click.raw_token) v.tokens ≡ o
    → (claim_found cfg click (hash_token cfg click.raw_token) o v).0 ≡ ok a
    → IsClaimable cfg click v a
found-IsClaimable cfg click v a none e h = absurd (ground arith)
found-IsClaimable cfg click v a (some t) e h = elim (Bool-cases (is_claimed t)) [
  | inl c ↦ absurd (ground (arith, (rw c at h)))
  | inr c ↦
      let h' = rw c at h in
      elim (Bool-cases (leb t.expires_at click.now)) [
        | inl l ↦ absurd (ground (arith, (rw l at h')))
        | inr l ↦
            let o = find_identity t.email_normalized v.identities in
            let (free, same) =
              signed cfg click t a o (claimed_vault click (hash_token cfg click.raw_token) v)
                (rw l at h') in
            (t, e, c, l, free, same)
      ]
]

-- A claim is answered with an access token exactly if the token's row is there, is not claimed, has not
-- expired, and its address is not bound to another provider's subject; the access token is that of
-- the oldest identity of the address, or of a new one.
pub claim_link_succeeds :
    (cfg : Settings) (click : Click) (v : Vault) (a : Text)
    → ((claim_link cfg click v).0 ≡ done a) ↔ IsClaimable cfg click v a
unfolding claim_link
claim_link_succeeds cfg click v a = (
  λ h.
      found-IsClaimable cfg click v a (find_token (hash_token cfg click.raw_token) v.tokens) refl
        (settled v (claim_magic_link cfg click v) a h),
  λ (t, f, c, l, n, e).
      rw (f, c, l)
        (signs cfg click t (find_identity t.email_normalized v.identities) v
            (claimed_vault click (hash_token cfg click.raw_token) v) n
          ∙ ap done (sym e)),
)
