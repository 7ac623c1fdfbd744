-- ===== src/Delivery/Workers.antt =====
-- Several workers at once: their transactions and posts in any interleaving, with crashes.
use jp_adopt_core.Prelude.{ℕ, String, ◌≡◌, false, some, List, [], ◌∷◌, ◌++◌}
use jp_adopt_core.Outbox.{OutboxRow, Payload, new_row}
use jp_adopt_core.Delivery.Batch.{claim_row, update_row, release_claim, mark_processed}
use jp_adopt_core.Delivery.Drain.{has_row}

-- Where a worker stands between the transactions of `process_outbox_batch`: its POST is under way, or
-- was answered with success, or failed.
pub data Phase : Type 0 where
  posting answered failed : Phase

pub record Worker : Type 0 where
  pub row_uuid : ℕ
  pub phase : Phase

-- The table, the workers, and the identifiers of the rows that the webhook has taken, one entry for
-- each time.
pub record Site : Type 0 where
  pub rows : List OutboxRow
  pub workers : List Worker
  pub taken : List ℕ

abbrev pub worker : ℕ → Phase → Worker
worker i phase = record { row_uuid = i; phase = phase }

-- The site with one worker in another phase, or gone.
abbrev pub at_phase : List Worker → ℕ → Phase → List Worker → Site → Site
at_phase before i phase after s = record s { workers = before ++ worker i phase ∷ after }

abbrev pub without : List Worker → List Worker → Site → Site
without before after s = record s { workers = before ++ after }

abbrev pub with_rows : List OutboxRow → Site → Site
with_rows rows s = record s { rows = rows }

-- One transaction, one answer of the webhook, or one crash. A claim passes over the rows `locked`,
-- which other transactions hold (`skip_locked`).
pub data Step : Site → Site → Type 0 where
  claims :
      {s : Site} (stale now : ℕ) (locked rows claimed : List OutboxRow) (r : OutboxRow)
      → s.rows ≡ locked ++ rows
      → claim_row stale now rows ≡ (some r, claimed)
      → Step s (record s { rows = locked ++ claimed; workers = worker r.id posting ∷ s.workers })
  succeeds :
      {s : Site} (before after : List Worker) (i : ℕ)
      → s.workers ≡ before ++ worker i posting ∷ after
      → Step s (record (at_phase before i answered after s) { taken = i ∷ s.taken })
  fails :
      {s : Site} (before after : List Worker) (i : ℕ)
      → s.workers ≡ before ++ worker i posting ∷ after
      → Step s (at_phase before i failed after s)
  loses_answer :
      {s : Site} (before after : List Worker) (i : ℕ)
      → s.workers ≡ before ++ worker i posting ∷ after
      → Step s (record (at_phase before i failed after s) { taken = i ∷ s.taken })
  marks :
      {s : Site} (now : ℕ) (before after : List Worker) (i : ℕ)
      → s.workers ≡ before ++ worker i answered ∷ after
      → Step s (with_rows (update_row i (mark_processed now) s.rows) (without before after s))
  releases :
      {s : Site} (before after : List Worker) (i : ℕ)
      → s.workers ≡ before ++ worker i failed ∷ after
      → Step s (with_rows (update_row i release_claim s.rows) (without before after s))
  crashes :
      {s : Site} (before after : List Worker) (i : ℕ) (phase : Phase)
      → s.workers ≡ before ++ worker i phase ∷ after
      → Step s (without before after s)
  emits :
      {s : Site} (i : ℕ) (event_type : String) (payload : Payload)
      → has_row i s.rows ≡ false
      → Step s (with_rows (s.rows ++ new_row i event_type payload ∷ []) s)

pub data Reach (s : Site) : Site → Type 0 where
  start : Reach s s
  next : {t u : Site} → Reach s t → Step t u → Reach s u
