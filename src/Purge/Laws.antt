-- ===== src/Purge/Laws.antt =====
-- The purges end, delete exactly what is stale, and neither the rate limit nor a replay notices.
use jp_adopt_core.Prelude.{
  ℕ, suc, zero, ◌+◌, ◌-◌, ◌≤◌, ◌<◌, ◌≡◌, refl, sym, ◌∙◌, ap, Bool, true, false, not, some, List, [],
  ◌∷◌, ltb, ◌&&◌, min, filter, Bool-cases, inl, inr, arith,
}
use mathlib.Core.Path.{subst}
use jp_adopt_core.Text.{Text, text_eq}
use jp_adopt_core.Magic.Rows.{MagicLinkRateLimit}
use jp_adopt_core.Magic.Link.{count_recent}
use jp_adopt_core.Intake.Rows.{ApiIdempotencyKey, completed}
use jp_adopt_core.Intake.Access.{find_claim}
use jp_adopt_core.Purge.{
  purge_batch_size, count, delete_batch, purge, is_old_request, is_dead_key,
  purge_magic_link_rate_limits, purge_idempotency_keys,
}

module _ {A : Type 0} (stale : A → Bool) where
  abbrev pub live : List A → List A
  live = filter (λ x. not (stale x))

  count-batch :
      (limit : ℕ) (rows : List A)
      → count stale (delete_batch stale limit rows) ≡ count stale rows - limit
  unfolding delete_batch
  count-batch limit [] = omega arith
  count-batch limit (x ∷ xs) = ground (arith, count-batch limit xs, count-batch (limit - 1) xs)

  live-batch : (limit : ℕ) (rows : List A) → live (delete_batch stale limit rows) ≡ live rows
  unfolding delete_batch
  live-batch limit [] = refl
  live-batch limit (x ∷ xs) = ground (arith, live-batch limit xs, live-batch (limit - 1) xs)

  all_live : (rows : List A) → count stale rows ≡ 0 → rows ≡ live rows
  all_live [] h = refl
  all_live (x ∷ xs) h = ground (arith, all_live xs)

  batch_rest :
      (limit : ℕ) (rows : List A)
      → count stale rows ≤ limit
      → delete_batch stale limit rows ≡ live rows
  batch_rest limit rows h =
      all_live (delete_batch stale limit rows) (omega (arith, count-batch limit rows))
      ∙ live-batch limit rows

  -- With a round for each stale row, and one more, the loop ends and has deleted the stale rows.
  pub purge_lem :
      (fuel : ℕ) (rows : List A)
      → count stale rows < fuel
      → purge stale fuel rows ≡ (live rows, true)
  unfolding purge
  purge_lem zero rows h = absurd (omega arith)
  purge_lem (suc fuel) rows h =
      elim (Bool-cases (ltb (min purge_batch_size (count stale rows)) purge_batch_size)) [
        | inl few ↦
            rw few
              (ap (λ (r : List A). (r, true)) (batch_rest purge_batch_size rows (ground arith)))
        | inr many ↦ rw many (
            purge_lem fuel (delete_batch stale purge_batch_size rows)
              (ground (arith, count-batch purge_batch_size rows))
            ∙ ap (λ (r : List A). (r, true)) (live-batch purge_batch_size rows))
      ]

count_recent-live :
    (email : Text) (now purged : ℕ) (rows : List MagicLinkRateLimit)
    → purged ≤ now + 3600
    → count_recent email now (live (is_old_request purged) rows) ≡ count_recent email now rows
count_recent-live email now purged [] h = refl
count_recent-live email now purged (r ∷ rs) h =
    ground (arith, count_recent-live email now purged rs h)

not_dead :
    (now : ℕ) (x : ApiIdempotencyKey)
    → x.state ≡ completed
    → now ≤ x.expires_at
    → is_dead_key now x ≡ false
not_dead now x c e = rw c (ground arith)

count-live : {A : Type 0} (stale : A → Bool) (rows : List A) → count stale (live stale rows) ≡ 0
count-live stale [] = refl
count-live stale (x ∷ xs) = ground (arith, count-live stale xs)

find_claim-live :
    (a k : Text) (now : ℕ) (rows : List ApiIdempotencyKey) (x : ApiIdempotencyKey)
    → find_claim a k rows ≡ some x
    → x.state ≡ completed
    → now ≤ x.expires_at
    → find_claim a k (live (is_dead_key now) rows) ≡ some x
find_claim-live a k now [] x h c e = h
find_claim-live a k now (r ∷ rs) x h c e =
    elim (Bool-cases (text_eq r.api_key_id a && text_eq r.key k)) [
      | inl m ↦
          let found : r ≡ x = ground arith in
          let alive : is_dead_key now r ≡ false =
            subst (λ y. is_dead_key now y ≡ false) (sym found) (not_dead now x c e) in
          rw (alive, m) (ap some found)
      | inr m ↦ elim (Bool-cases (is_dead_key now r)) [
        | inl dead ↦ rw dead (find_claim-live a k now rs x (rw m at h) c e)
        | inr alive ↦ rw (alive, m) (find_claim-live a k now rs x (rw m at h) c e)
      ]
    ]

-- The purge of the rate limits ends, and no count of recent requests changes, of no address and at no
-- time up to an hour behind the purge's clock.
purge_keeps_rate_limit :
    (fuel now purged : ℕ) (email : Text) (rows : List MagicLinkRateLimit)
    → count (is_old_request purged) rows < fuel
    → purged ≤ now + 3600
    → let (rows', ended) = purge_magic_link_rate_limits fuel purged rows in
      (ended ≡ true)
      × (count_recent email now rows' ≡ count_recent email now rows)
      × (count (is_old_request purged) rows' ≡ 0)
unfolding purge_magic_link_rate_limits
purge_keeps_rate_limit fuel now purged email rows enough near =
    rw (purge_lem (is_old_request purged) fuel rows enough)
      (refl, count_recent-live email now purged rows near, count-live (is_old_request purged) rows)

-- The purge of the idempotency keys ends, and the row of a request that was completed and has not
-- expired is still found, so that the request is still replayed; no dead row is left.
pub purge_keeps_replays :
    (fuel now : ℕ) (a k : Text) (x : ApiIdempotencyKey) (rows : List ApiIdempotencyKey)
    → count (is_dead_key now) rows < fuel
    → find_claim a k rows ≡ some x
    → x.state ≡ completed
    → now ≤ x.expires_at
    → let (rows', ended) = purge_idempotency_keys fuel now rows in
      (ended ≡ true) × (find_claim a k rows' ≡ some x) × (count (is_dead_key now) rows' ≡ 0)
unfolding purge_idempotency_keys
purge_keeps_replays fuel now a k x rows enough found done fresh =
    rw (purge_lem (is_dead_key now) fuel rows enough)
      (refl, find_claim-live a k now rows x found done fresh, count-live (is_dead_key now) rows)
