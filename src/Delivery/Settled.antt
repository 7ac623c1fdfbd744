-- ===== src/Delivery/Settled.antt =====
-- A row that is marked and that no worker is posting is never posted again.
use jp_adopt_core.Prelude.{
  ℕ, ◌≡◌, refl, Bool, true, false, Option, none, some, List, [], ◌∷◌, ◌++◌, if◌then◌else◌, ◌==◌,
  ==_iff, ◌&&◌, ◌+◌, arith, All, All-append, sym, Bool-cases, ap, ◌∙◌, inl, inr,
}
use mathlib.Core.Path.{subst}
use jp_adopt_core.Outbox.{OutboxRow, new_row}
use jp_adopt_core.Delivery.Batch.{
  is_pending, is_free, claim_row, update_row, release_claim, mark_processed,
}
use jp_adopt_core.Delivery.Drain.{has_row}
use jp_adopt_core.Delivery.Workers.{
  Phase, posting, answered, failed, Worker, worker, Site, Step, claims, succeeds, fails,
  loses_answer, marks, releases, crashes, emits, Reach, start, next,
}
use jp_adopt_core.Delivery.Rows.{
  All-parts, All-replaced, All-removed, claim_row-All, update_row-All,
}

abbrev pub is_posting : Phase → Bool
is_posting posting = true
is_posting _ = false

abbrev pub count_id : ℕ → List ℕ → ℕ
count_id i [] = 0
count_id i (j ∷ js) = (if i == j then 1 else 0) + count_id i js

abbrev pub IsMarkedAt : ℕ → OutboxRow → Type 0
IsMarkedAt i r = r.id == i && is_pending r ≡ false

abbrev pub IsIdleAt : ℕ → Worker → Type 0
IsIdleAt i w = w.row_uuid == i && is_posting w.phase ≡ false

-- The row is there, it is marked, and no worker is posting it.
pub record IsSettled (i : ℕ) (s : Site) : Type 0 where
  pub present : has_row i s.rows ≡ true
  pub marked : All (IsMarkedAt i) s.rows
  pub idle : All (IsIdleAt i) s.workers

has_row-append :
    (i : ℕ) (xs ys : List OutboxRow) → has_row i xs ≡ true → has_row i (xs ++ ys) ≡ true
has_row-append i [] ys h = absurd (ground arith)
has_row-append i (x ∷ xs) ys h = ground (arith, has_row-append i xs ys)

has_row-update_row :
    (i j : ℕ) (f : OutboxRow → OutboxRow) (rows : List OutboxRow)
    → ((r : OutboxRow) → (f r).id ≡ r.id)
    → has_row i (update_row j f rows) ≡ has_row i rows
has_row-update_row i j f [] k = refl
has_row-update_row i j f (r ∷ rows) k = ground (arith, has_row-update_row i j f rows k, k r)

has_row-claimed :
    (i stale now : ℕ) (rows : List OutboxRow)
    → has_row i (claim_row stale now rows).1 ≡ has_row i rows
unfolding claim_row
has_row-claimed i stale now [] = refl
has_row-claimed i stale now (r ∷ rows) = ground (arith, has_row-claimed i stale now rows)

has_row-same :
    (i : ℕ) (locked xs ys : List OutboxRow)
    → has_row i xs ≡ has_row i ys
    → has_row i (locked ++ xs) ≡ has_row i (locked ++ ys)
has_row-same i [] xs ys h = h
has_row-same i (r ∷ rows) xs ys h = ground (arith, has_row-same i rows xs ys h)

abbrev id_or : ℕ → Option OutboxRow → ℕ
id_or i none = i
id_or i (some r) = r.id

other_id :
    (i j : ℕ) (rows : List OutboxRow)
    → has_row i rows ≡ true
    → has_row j rows ≡ false
    → (j == i) && true ≡ false
other_id i j rows h k = elim (Bool-cases (j == i)) [
  | inl e ↦ absurd (ground (arith, subst (λ (x : ℕ). has_row x rows ≡ false) ((==_iff j i).0 e) k))
  | inr e ↦ rw e refl
]

-- A claim takes a pending row.
claimed_pending :
    (i stale now : ℕ) (rows : List OutboxRow) (r : OutboxRow)
    → (claim_row stale now rows).0 ≡ some r
    → All (IsMarkedAt i) rows
    → r.id == i ≡ false
unfolding claim_row
claimed_pending i stale now [] r e h = absurd (ground arith)
claimed_pending i stale now (x ∷ rows) r e h = elim (Bool-cases (is_pending x && is_free stale x)) [
  | inl q ↦ subst (λ (k : ℕ). k == i ≡ false) (ap (id_or x.id) (rw q at e)) (ground (arith, h.0, q))
  | inr q ↦ claimed_pending i stale now rows r (rw q at e) h.1
]

-- What a step does to the count of the times that the webhook took a row, and to a settled row.
Step-IsSettled :
    (i : ℕ) {s t : Site}
    → Step s t
    → IsSettled i s
    → IsSettled i t × (count_id i t.taken ≡ count_id i s.taken)
Step-IsSettled i {s} (claims stale now locked rows claimed r split e) h =
    let marked =
      (All-parts (IsMarkedAt i) locked rows (subst (All (IsMarkedAt i)) split h.marked)).1 in
    (
      record {
        present =
            has_row-same i locked claimed rows (
              sym (ap (λ (c : Option OutboxRow × List OutboxRow). has_row i c.1) e)
              ∙ has_row-claimed i stale now rows)
            ∙ ap (has_row i) (sym split)
            ∙ h.present;
        marked =
            claim_row-All (IsMarkedAt i) stale now locked rows claimed s.rows r (λ x p. p) split e
              h.marked;
        idle = (
          ground (
            arith,
            claimed_pending i stale now rows r
                (ap (λ (c : Option OutboxRow × List OutboxRow). c.0) e) marked,
          ),
          h.idle,
        );
      },
      refl,
    )
Step-IsSettled i {s} (succeeds before after j e) h =
    let other = (All-removed (IsIdleAt i) before after s.workers (worker j posting) e h.idle).0 in
    (
      record {
        present = h.present;
        marked = h.marked;
        idle =
            All-replaced (IsIdleAt i) before after s.workers (worker j posting) (worker j answered)
              e (ground (arith, other)) h.idle;
      },
      ground (arith, other, ==_iff i j, ==_iff j i),
    )
Step-IsSettled i {s} (fails before after j e) h =
    let other = (All-removed (IsIdleAt i) before after s.workers (worker j posting) e h.idle).0 in
    (
      record {
        present = h.present;
        marked = h.marked;
        idle =
            All-replaced (IsIdleAt i) before after s.workers (worker j posting) (worker j failed) e
              (ground (arith, other)) h.idle;
      },
      refl,
    )
Step-IsSettled i {s} (loses_answer before after j e) h =
    let other = (All-removed (IsIdleAt i) before after s.workers (worker j posting) e h.idle).0 in
    (
      record {
        present = h.present;
        marked = h.marked;
        idle =
            All-replaced (IsIdleAt i) before after s.workers (worker j posting) (worker j failed) e
              (ground (arith, other)) h.idle;
      },
      ground (arith, other, ==_iff i j, ==_iff j i),
    )
Step-IsSettled i {s} (marks now before after j e) h = (
  record {
    present = has_row-update_row i j (mark_processed now) s.rows (λ r. refl) ∙ h.present;
    marked =
        update_row-All (IsMarkedAt i) j (mark_processed now) s.rows (λ r _ p. ground arith)
          h.marked;
    idle = (All-removed (IsIdleAt i) before after s.workers (worker j answered) e h.idle).1;
  },
  refl,
)
Step-IsSettled i {s} (releases before after j e) h = (
  record {
    present = has_row-update_row i j release_claim s.rows (λ r. ground arith) ∙ h.present;
    marked =
        update_row-All (IsMarkedAt i) j release_claim s.rows (λ r _ p. ground (arith, p)) h.marked;
    idle = (All-removed (IsIdleAt i) before after s.workers (worker j failed) e h.idle).1;
  },
  refl,
)
Step-IsSettled i {s} (crashes before after j phase e) h = (
  record {
    present = h.present;
    marked = h.marked;
    idle = (All-removed (IsIdleAt i) before after s.workers (worker j phase) e h.idle).1;
  },
  refl,
)
Step-IsSettled i {s} (emits j event_type payload fresh) h = (
  record {
    present = has_row-append i s.rows (new_row j event_type payload ∷ []) h.present;
    marked =
        All-append (IsMarkedAt i) s.rows (new_row j event_type payload ∷ []) h.marked
          (other_id i j s.rows h.present fresh, tt);
    idle = h.idle;
  },
  refl,
)

-- However many workers run: once a row is marked and no worker is posting it, the webhook never takes
-- it again, and it stays marked.
pub Reach-IsSettled :
    (i : ℕ) {s t : Site}
    → Reach s t
    → IsSettled i s
    → IsSettled i t × (count_id i t.taken ≡ count_id i s.taken)
Reach-IsSettled i start h = (h, refl)
Reach-IsSettled i (next r step) h =
    let (mid, same) = Reach-IsSettled i r h in
    let (end, last) = Step-IsSettled i step mid in (end, last ∙ same)
