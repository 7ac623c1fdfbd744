-- ===== src/Purge.antt =====
-- The hourly purges of worker_settings.py: rows are deleted in batches until a batch is not full.
pub mod Laws
use jp_adopt_core.Prelude.{
  ℕ, suc, zero, ◌+◌, ◌-◌, Bool, true, false, not, Option, none, some, List, [], ◌∷◌, if◌then◌else◌,
  ltb, ◌&&◌, ◌||◌, min,
}
use jp_adopt_core.Magic.Rows.{MagicLinkRateLimit}
use jp_adopt_core.Intake.Rows.{ApiIdempotencyKey, KeyState, pending, completed}

-- `_PURGE_BATCH_SIZE`
abbrev pub purge_batch_size : ℕ
purge_batch_size = 1000

module _ {A : Type 0} (stale : A → Bool) where
  abbrev pub count : List A → ℕ
  count [] = 0
  count (x ∷ xs) = (if stale x then 1 else 0) + count xs

  -- `DELETE … WHERE id IN (SELECT … LIMIT limit)`, in the order of the table.
  unfoldable pub delete_batch : ℕ → List A → List A
  delete_batch limit [] = []
  delete_batch limit (x ∷ xs) =
      let chosen = stale x && ltb 0 limit in
      let rest = delete_batch (if chosen then limit - 1 else limit) xs in
      if chosen then rest else x ∷ rest

  -- The loop; the second part tells that it has ended.
  unfoldable pub purge : ℕ → List A → List A × Bool
  unfolding delete_batch
  purge zero rows = (rows, false)
  purge (suc fuel) rows =
      let rest = purge fuel (delete_batch purge_batch_size rows) in
      if ltb (min purge_batch_size (count rows)) purge_batch_size
      then (delete_batch purge_batch_size rows, true)
      else rest

-- Requests of links older than two hours.
abbrev pub is_old_request : ℕ → MagicLinkRateLimit → Bool
is_old_request now r = ltb (r.requested_at + 7200) now

abbrev pub is_pending : KeyState → Bool
is_pending pending = true
is_pending completed = false

-- Keys that have expired, or that are pending for more than an hour.
abbrev pub is_dead_key : ℕ → ApiIdempotencyKey → Bool
is_dead_key now r = ltb r.expires_at now || (is_pending r.state && ltb (r.created_at + 3600) now)

-- `purge_magic_link_rate_limits`
unfoldable pub purge_magic_link_rate_limits :
    ℕ → ℕ → List MagicLinkRateLimit → List MagicLinkRateLimit × Bool
unfolding purge
purge_magic_link_rate_limits fuel now rows = purge (is_old_request now) fuel rows

-- `purge_idempotency_keys`
unfoldable pub purge_idempotency_keys :
    ℕ → ℕ → List ApiIdempotencyKey → List ApiIdempotencyKey × Bool
unfolding purge
purge_idempotency_keys fuel now rows = purge (is_dead_key now) fuel rows
