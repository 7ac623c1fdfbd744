-- ===== src/Delivery/Drain.antt =====
-- What a drain sends: the pending rows in the order of their creation, and nothing else.
use jp_adopt_core.Prelude.{
  ℕ, zero, suc, ◌≡◌, refl, inl, inr, Bool, true, false, Option, none, some, List, [], ◌∷◌, ◌++◌,
  if◌then◌else◌, ◌==◌, ==_iff, arith, All, All-if, Bool-cases, Option-cases, filter, take, map, sym,
  ap, ◌∙◌,
}
use mathlib.Core.List.{append-nil, append_assoc}
use jp_adopt_core.Outbox.{OutboxRow}
use jp_adopt_core.Delivery.Batch.{
  is_pending, is_free, claim_row, update_row, release_claim, mark_processed, Post, Clock, Channel,
  BatchEnd, returned, raised, process_outbox_batch, drain_outbox, go_on,
}

abbrev pub has_row : ℕ → List OutboxRow → Bool
has_row i [] = false
has_row i (r ∷ rows) = if r.id == i then true else has_row i rows

-- The primary key: no two rows have one identifier.
abbrev pub IsKeyed : List OutboxRow → Type 0
IsKeyed [] = Unit
IsKeyed (r ∷ rows) = (has_row r.id rows ≡ false) × IsKeyed rows

-- No worker holds a claim.
abbrev pub IsUnclaimed : OutboxRow → Type 0
IsUnclaimed r = r.claimed_at ≡ none

abbrev pub post_of : OutboxRow → Post
post_of r = (r.id, r.payload_json)

-- The rows with the first pending one changed.
abbrev pub change_first : (OutboxRow → OutboxRow) → List OutboxRow → List OutboxRow
change_first f [] = []
change_first f (r ∷ rows) = if is_pending r then f r ∷ rows else r ∷ change_first f rows

abbrev pub first_pending : List OutboxRow → Option OutboxRow
first_pending [] = none
first_pending (r ∷ rows) = if is_pending r then some r else first_pending rows

abbrev pub claimed : ℕ → OutboxRow → OutboxRow
claimed now r = record r { claimed_at = some now }

unclaimed_is_free : (stale : ℕ) (r : OutboxRow) → IsUnclaimed r → is_free stale r ≡ true
unclaimed_is_free stale r h = ground arith

claim_row_lem :
    (stale now : ℕ) (rows : List OutboxRow)
    → All IsUnclaimed rows
    → claim_row stale now rows ≡ (first_pending rows, change_first (claimed now) rows)
unfolding claim_row
claim_row_lem stale now [] h = refl
claim_row_lem stale now (r ∷ rows) h =
    let free : is_free stale r ≡ true = unclaimed_is_free stale r h.0 in
    elim (Bool-cases (is_pending r)) [
      | inl e ↦ rw (free, claim_row_lem stale now rows h.1, e) refl
      | inr e ↦ rw (free, claim_row_lem stale now rows h.1, e) refl
    ]

abbrev id_or : ℕ → Option OutboxRow → ℕ
id_or i none = i
id_or i (some r) = r.id

first_pending-has_row :
    (r : OutboxRow) (rows : List OutboxRow) → first_pending rows ≡ some r → has_row r.id rows ≡ true
first_pending-has_row r [] h = absurd (ground arith)
first_pending-has_row r (x ∷ rows) h = elim (Bool-cases (is_pending x)) [
  | inl e ↦ rw ((==_iff x.id r.id).1 (ap (id_or 0) (rw e at h))) refl
  | inr e ↦ ground (arith, first_pending-has_row r rows (rw e at h))
]

update_row-change_first :
    (g : OutboxRow → OutboxRow) (now : ℕ) (r : OutboxRow) (rows : List OutboxRow)
    → IsKeyed rows
    → first_pending rows ≡ some r
    → update_row r.id g (change_first (claimed now) rows)
      ≡ change_first (λ x. g (claimed now x)) rows
update_row-change_first g now r [] k h = refl
update_row-change_first g now r (x ∷ rows) k h = elim (Bool-cases (is_pending x)) [
  | inl e ↦ rw e (rw ((==_iff x.id r.id).1 (ap (id_or 0) (rw e at h))) refl)
  | inr e ↦ rw e (
      ground (
        arith,
        first_pending-has_row r rows (rw e at h),
        k.0,
        ==_iff x.id r.id,
        update_row-change_first g now r rows k.1 (rw e at h),
      ))
]

change_first-release :
    (now : ℕ) (rows : List OutboxRow)
    → All IsUnclaimed rows
    → change_first (λ x. release_claim (claimed now x)) rows ≡ rows
change_first-release now [] h = refl
change_first-release now (r ∷ rows) h = elim (Bool-cases (is_pending r)) [
  | inl e ↦ rw e (ap (λ c. record r { claimed_at = c } ∷ rows) (sym h.0))
  | inr e ↦ rw e (ap (λ rest. r ∷ rest) (change_first-release now rows h.1))
]

change_first-none :
    (f : OutboxRow → OutboxRow) (rows : List OutboxRow)
    → first_pending rows ≡ none
    → change_first f rows ≡ rows
change_first-none f [] h = refl
change_first-none f (r ∷ rows) h = ground (arith, change_first-none f rows)

-- The state after one call, by the first pending row and the webhook's answer.
abbrev pub after_call : (Post → Bool) → Clock → Channel → Option OutboxRow → BatchEnd × Channel
after_call accepts clock ch none = (returned 0, ch)
after_call accepts clock ch (some r) =
    let sent = ch.sent ++ post_of r ∷ [] in
    if accepts (post_of r)
    then (
      returned 1,
      record { rows = change_first (mark_processed clock.processed_at) ch.rows; sent = sent },
    )
    else (raised, record { rows = ch.rows; sent = sent })

-- While no other transaction writes and no claim is held, a call posts the oldest pending row, if
-- there is one. If the webhook accepts it the row is marked and all others are as before; if it does
-- not, the call raises and the table is as before.
process_outbox_batch_lem :
    (accepts : Post → Bool) (clock : Clock) (ch : Channel)
    → IsKeyed ch.rows
    → All IsUnclaimed ch.rows
    → process_outbox_batch true accepts (λ rows. rows) clock ch
      ≡ after_call accepts clock ch (first_pending ch.rows)
unfolding process_outbox_batch
process_outbox_batch_lem accepts clock ch k u = elim (Option-cases (first_pending ch.rows)) [
  | inl e ↦
      rw (claim_row_lem clock.stale_read clock.claimed_at ch.rows u, e)
        (rw
          (
            claim_row_lem clock.stale_read clock.claimed_at ch.rows u,
            change_first-none (claimed clock.claimed_at) ch.rows e,
          )
          refl)
  | inr (r, e) ↦
      let kept =
        λ (g : OutboxRow → OutboxRow). update_row-change_first g clock.claimed_at r ch.rows k e in
      rw (claim_row_lem clock.stale_read clock.claimed_at ch.rows u, e)
        (rw (claim_row_lem clock.stale_read clock.claimed_at ch.rows u)
          (elim (Bool-cases (accepts (post_of r))) [
            | inl ok ↦ rw (ok, kept (mark_processed clock.processed_at)) refl
            | inr refused ↦
                rw (refused, kept release_claim, change_first-release clock.claimed_at ch.rows u)
                  refl
          ]))
]

-- What a call keeps of the table when it marks a row.
change_first-has_row :
    (now i : ℕ) (rows : List OutboxRow)
    → has_row i (change_first (mark_processed now) rows) ≡ has_row i rows
change_first-has_row now i [] = refl
change_first-has_row now i (r ∷ rows) = ground (arith, change_first-has_row now i rows)

marked-IsKeyed :
    (now : ℕ) (rows : List OutboxRow)
    → IsKeyed rows
    → IsKeyed (change_first (mark_processed now) rows)
marked-IsKeyed now [] k = tt
marked-IsKeyed now (r ∷ rows) k = elim (Bool-cases (is_pending r)) [
  | inl e ↦ rw e k
  | inr e ↦ rw e (change_first-has_row now r.id rows ∙ k.0, marked-IsKeyed now rows k.1)
]

marked-IsUnclaimed :
    (now : ℕ) (rows : List OutboxRow)
    → All IsUnclaimed rows
    → All IsUnclaimed (change_first (mark_processed now) rows)
marked-IsUnclaimed now [] h = tt
marked-IsUnclaimed now (r ∷ rows) h =
    All-if IsUnclaimed (is_pending r) (mark_processed now r ∷ rows)
      (r ∷ change_first (mark_processed now) rows) (λ _. (refl, h.1))
      (λ _. (h.0, marked-IsUnclaimed now rows h.1))

abbrev pub drop : {A : Type 0} → ℕ → List A → List A
drop zero xs = xs
drop (suc n) [] = []
drop (suc n) (x ∷ xs) = drop n xs

marked_pending :
    (now : ℕ) (rows : List OutboxRow)
    → filter is_pending (change_first (mark_processed now) rows) ≡ drop 1 (filter is_pending rows)
marked_pending now [] = refl
marked_pending now (r ∷ rows) = elim (Bool-cases (is_pending r)) [
  | inl e ↦ rw e refl
  | inr e ↦ rw e (rw e (marked_pending now rows))
]

abbrev pub head : List OutboxRow → Option OutboxRow
head [] = none
head (r ∷ rows) = some r

first_pending_lem : (rows : List OutboxRow) → first_pending rows ≡ head (filter is_pending rows)
first_pending_lem [] = refl
first_pending_lem (r ∷ rows) = ground (arith, first_pending_lem rows)

-- If the webhook accepts every post, no claim is held and no other transaction writes, a drain of `n`
-- calls posts the `n` oldest pending rows, each once, in the order of their creation, and leaves
-- exactly the others pending.
pub drain_outbox_delivers :
    (accepts : Post → Bool) (n : ℕ) (clocks : ℕ → Clock) (ch : Channel)
    → ((p : Post) → accepts p ≡ true)
    → IsKeyed ch.rows
    → All IsUnclaimed ch.rows
    → let ch' = drain_outbox true accepts (λ rows. rows) n clocks ch in
      let pending = filter is_pending ch.rows in
      (ch'.sent ≡ ch.sent ++ map post_of (take n pending))
      × (filter is_pending ch'.rows ≡ drop n pending)
unfolding drain_outbox
drain_outbox_delivers accepts zero clocks ch a k u = (sym (append-nil ch.sent), refl)
drain_outbox_delivers accepts (suc n) clocks ch a k u =
    let marked = change_first (mark_processed (clocks n).processed_at) ch.rows in
    rw (process_outbox_batch_lem accepts (clocks n) ch k u, first_pending_lem ch.rows)
      (go (filter is_pending ch.rows) refl λ sent.
        drain_outbox_delivers accepts n clocks (record { rows = marked; sent = sent }) a
          (marked-IsKeyed (clocks n).processed_at ch.rows k)
          (marked-IsUnclaimed (clocks n).processed_at ch.rows u))
  where
    drain : Channel → Channel
    drain = drain_outbox true accepts (λ rows. rows) n clocks

    go :
        (pending : List OutboxRow)
        → filter is_pending ch.rows ≡ pending
        → ((sent : List Post)
            → let marked = change_first (mark_processed (clocks n).processed_at) ch.rows in
              let ch' = drain (record { rows = marked; sent = sent }) in
              (ch'.sent ≡ sent ++ map post_of (take n (filter is_pending marked)))
              × (filter is_pending ch'.rows ≡ drop n (filter is_pending marked)))
        → let ch' = go_on drain (after_call accepts (clocks n) ch (head pending)) in
          (ch'.sent ≡ ch.sent ++ map post_of (take (suc n) pending))
          × (filter is_pending ch'.rows ≡ drop (suc n) pending)
    go [] e ih = (sym (append-nil ch.sent), e)
    go (r ∷ rest) e ih =
        let left = marked_pending (clocks n).processed_at ch.rows ∙ ap (drop 1) e in
        let (sent, pending) = ih (ch.sent ++ post_of r ∷ []) in
        rw (a (post_of r)) (
          sent
              ∙ ap (λ l. (ch.sent ++ post_of r ∷ []) ++ map post_of (take n l)) left
              ∙ append_assoc ch.sent (post_of r ∷ []) (map post_of (take n rest)),
          pending ∙ ap (drop n) left,
        )
