-- ===== src/Tests/Delivery.antt =====
-- Deliveries from a concrete outbox.
use jp_adopt_core.Prelude.{ℕ, ◌≡◌, refl, true, some, [], ◌∷◌, ◌++◌, map, take, filter, All}
use jp_adopt_core.Outbox.{OutboxRow, new_row, other_payload}
use jp_adopt_core.Delivery.Batch.{is_pending, claim_row, Clock, Channel, drain_outbox}
use jp_adopt_core.Delivery.Drain.{IsKeyed, post_of, drop, drain_outbox_delivers}
use jp_adopt_core.Delivery.Workers.{
  posting, worker, Site, Step, claims, succeeds, marks, Reach, start, next,
}
use jp_adopt_core.Delivery.Taken.{IsTakenRow, marked_was_taken}
use jp_adopt_core.Delivery.Settled.{IsSettled, count_id, Reach-IsSettled}

abbrev row : ℕ → OutboxRow
row i = new_row i "jp.adopt.v1.contact.submitted" (other_payload "{}")

abbrev channel : Channel
channel = record { rows = record (row 1) { processed_at = some 5 } ∷ row 2 ∷ row 3 ∷ []; sent = [] }

abbrev clock : Clock
clock = record { stale_read = 1000; claimed_at = 1001; processed_at = 1002 }

keyed : IsKeyed channel.rows
keyed = (refl, (refl, (refl, tt)))

drain_outbox_delivers_example :
    let ch' = drain_outbox true (λ p. true) (λ rows. rows) 1 (λ n. clock) channel in
    let pending = filter is_pending channel.rows in
    (ch'.sent ≡ channel.sent ++ map post_of (take 1 pending))
    × (filter is_pending ch'.rows ≡ drop 1 pending)
drain_outbox_delivers_example =
    drain_outbox_delivers (λ p. true) 1 (λ n. clock) channel (λ p. refl) keyed
      (refl, (refl, (refl, tt)))

abbrev quiet : Site
quiet = record { rows = row 2 ∷ []; workers = []; taken = [] }

abbrev claimed_row : OutboxRow
claimed_row = record (row 2) { claimed_at = some 1001 }

abbrev marked_row : OutboxRow
marked_row = record (row 2) { processed_at = some 1002 }

abbrev working : Site
working = record { rows = claimed_row ∷ []; workers = worker 2 posting ∷ []; taken = [] }

abbrev delivered : Site
delivered = record { rows = marked_row ∷ []; workers = []; taken = 2 ∷ [] }

claims_row : Step quiet working
unfolding claim_row
claims_row = claims 1000 1001 [] (row 2 ∷ []) (claimed_row ∷ []) (row 2) refl refl

delivers : Reach quiet delivered
delivers = next (next (next start claims_row) (succeeds [] [] 2 refl)) (marks 1002 [] [] 2 refl)

marked_was_taken_example : All (IsTakenRow delivered.taken) delivered.rows
marked_was_taken_example = marked_was_taken (refl, tt) refl delivers

Reach-IsSettled_example :
    IsSettled 2 delivered × (count_id 2 delivered.taken ≡ count_id 2 delivered.taken)
Reach-IsSettled_example =
    Reach-IsSettled 2 start (record { present = refl; marked = (refl, tt); idle = tt })
