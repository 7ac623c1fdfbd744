-- ===== src/Delivery/Batch.antt =====
-- One call of `process_outbox_batch`, and the drain that a tick runs.
use jp_adopt_core.Prelude.{
  ℕ, zero, suc, ◌+◌, Bool, true, false, not, Option, none, some, List, [], ◌∷◌, ◌++◌, if◌then◌else◌,
  ◌==◌, ltb, ◌&&◌,
}
use jp_adopt_core.Outbox.{Payload, OutboxRow}

-- `CLAIM_STALE_AFTER`, in seconds.
abbrev pub claim_stale_after : ℕ
claim_stale_after = 300

abbrev pub is_pending : OutboxRow → Bool
is_pending r = elim r.processed_at [ none ↦ true | some _ ↦ false ]

-- `claimed_at IS NULL OR claimed_at < stale_before`
abbrev pub is_free : ℕ → OutboxRow → Bool
is_free now r = elim r.claimed_at [ none ↦ true | some t ↦ ltb (t + claim_stale_after) now ]

-- Phase 1: the oldest claimable row, and the table after the claim.
unfoldable pub claim_row : (now claimed_at : ℕ) → List OutboxRow → Option OutboxRow × List OutboxRow
claim_row now claimed_at [] = (none, [])
claim_row now claimed_at (r ∷ rows) =
    let (found, rest) = claim_row now claimed_at rows in
    if is_pending r && is_free now r
    then (some r, record r { claimed_at = some claimed_at } ∷ rows)
    else (found, r ∷ rest)

-- `session.get(Outbox, row_uuid)` and a change of that row; without the row nothing happens.
abbrev pub update_row : ℕ → (OutboxRow → OutboxRow) → List OutboxRow → List OutboxRow
update_row i f [] = []
update_row i f (r ∷ rows) = if r.id == i then f r ∷ rows else r ∷ update_row i f rows

-- After a failed POST.
abbrev pub release_claim : OutboxRow → OutboxRow
release_claim r = if is_pending r then record r { claimed_at = none } else r

-- Phase 3.
abbrev pub mark_processed : ℕ → OutboxRow → OutboxRow
mark_processed now r = record r { processed_at = some now; claimed_at = none }

-- What the webhook is sent: the row's identifier as idempotency key, and the body.
abbrev pub Post : Type 0
Post = ℕ × Payload

-- The readings of the clock in one call.
pub record Clock : Type 0 where
  pub stale_read : ℕ
  pub claimed_at : ℕ
  pub processed_at : ℕ

-- The table, and the posts that the webhook has been sent.
pub record Channel : Type 0 where
  pub rows : List OutboxRow
  pub sent : List Post

pub data BatchEnd : Type 0 where
  returned : ℕ → BatchEnd
  raised : BatchEnd

-- The loop of a drain stops at the first call that delivers nothing or raises.
abbrev pub go_on : (Channel → Channel) → BatchEnd × Channel → Channel
go_on rest (returned zero, ch) = ch
go_on rest (returned (suc _), ch) = rest ch
go_on rest (raised, ch) = ch

-- `process_outbox_batch`. `configured` says that the webhook's URL and secret are set, `accepts` how
-- the webhook answers, and `others` is what other transactions do to the table during the POST.
module _ (configured : Bool) (accepts : Post → Bool)
    (others : List OutboxRow → List OutboxRow) where
  abbrev pub finish_post : Clock → OutboxRow → List OutboxRow → BatchEnd × List OutboxRow
  finish_post clock r rows =
      if accepts (r.id, r.payload_json)
      then (returned 1, update_row r.id (mark_processed clock.processed_at) rows)
      else (raised, update_row r.id release_claim rows)

  unfoldable pub process_outbox_batch : Clock → Channel → BatchEnd × Channel
  unfolding claim_row
  process_outbox_batch clock ch =
      if not configured
      then (returned 0, ch)
      else (let (found, claimed) = claim_row clock.stale_read clock.claimed_at ch.rows in
          elim found [
            | none ↦ (returned 0, record ch { rows = claimed })
            | some r ↦
                let (end, rows) = finish_post clock r (others claimed) in
                (end, record { rows = rows; sent = ch.sent ++ (r.id, r.payload_json) ∷ [] })
          ])

  -- `drain_outbox`: the fuel is `outbox_batch_size`, and `clocks` are the readings of each call.
  unfoldable pub drain_outbox : ℕ → (ℕ → Clock) → Channel → Channel
  unfolding process_outbox_batch
  drain_outbox zero clocks ch = ch
  drain_outbox (suc n) clocks ch =
      go_on (drain_outbox n clocks) (process_outbox_batch (clocks n) ch)
