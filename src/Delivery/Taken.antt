-- ===== src/Delivery/Taken.antt =====
-- A row is marked only after the webhook took it.
use jp_adopt_core.Prelude.{
  ℕ, ◌≡◌, refl, Bool, true, false, List, [], ◌∷◌, ==_iff, arith, in_ids, All, All-append, All-map,
  sym,
}
use mathlib.Core.Path.{subst}
use jp_adopt_core.Outbox.{OutboxRow, new_row}
use jp_adopt_core.Delivery.Batch.{is_pending, release_claim, mark_processed}
use jp_adopt_core.Delivery.Workers.{
  Phase, posting, answered, failed, Worker, worker, Site, Step, claims, succeeds, fails,
  loses_answer, marks, releases, crashes, emits, Reach, start, next,
}
use jp_adopt_core.Delivery.Rows.{All-replaced, All-removed, claim_row-All, update_row-All}

abbrev is_answered : Phase → Bool
is_answered answered = true
is_answered _ = false

-- A row that is marked was taken.
abbrev pub IsTakenRow : List ℕ → OutboxRow → Type 0
IsTakenRow taken r = is_pending r ≡ false → in_ids r.id taken ≡ true

-- A worker whose POST was answered with success has had its row taken.
abbrev pub IsTakenWork : List ℕ → Worker → Type 0
IsTakenWork taken w = is_answered w.phase ≡ true → in_ids w.row_uuid taken ≡ true

pub record IsTaken (s : Site) : Type 0 where
  pub marked_rows : All (IsTakenRow s.taken) s.rows
  pub answered_work : All (IsTakenWork s.taken) s.workers

in_ids-cons : (i j : ℕ) (ids : List ℕ) → in_ids i ids ≡ true → in_ids i (j ∷ ids) ≡ true
in_ids-cons i j ids h = ground arith

in_ids-head : (i : ℕ) (ids : List ℕ) → in_ids i (i ∷ ids) ≡ true
in_ids-head i ids = rw ((==_iff i i).1 refl) refl

more_taken :
    (j : ℕ) (s : Site)
    → IsTaken s
    → All (IsTakenRow (j ∷ s.taken)) s.rows × All (IsTakenWork (j ∷ s.taken)) s.workers
more_taken j s h = (
  All-map (IsTakenRow s.taken) (IsTakenRow (j ∷ s.taken))
      (λ r p n. in_ids-cons r.id j s.taken (p n)) s.rows h.marked_rows,
  All-map (IsTakenWork s.taken) (IsTakenWork (j ∷ s.taken))
      (λ w p n. in_ids-cons w.row_uuid j s.taken (p n)) s.workers h.answered_work,
)

Step-IsTaken : {s t : Site} → Step s t → IsTaken s → IsTaken t
Step-IsTaken {s} (claims stale now locked rows claimed r split e) h = record {
  marked_rows =
      claim_row-All (IsTakenRow s.taken) stale now locked rows claimed s.rows r (λ x p. p) split e
        h.marked_rows;
  answered_work = (λ n. absurd (ground arith), h.answered_work);
}
Step-IsTaken {s} (succeeds before after i e) h =
    let (rows, ws) = more_taken i s h in
    record {
      marked_rows = rows;
      answered_work =
          All-replaced (IsTakenWork (i ∷ s.taken)) before after s.workers (worker i posting)
            (worker i answered) e (λ _. in_ids-head i s.taken) ws;
    }
Step-IsTaken {s} (fails before after i e) h = record {
  marked_rows = h.marked_rows;
  answered_work =
      All-replaced (IsTakenWork s.taken) before after s.workers (worker i posting) (worker i failed)
        e (λ n. absurd (ground arith)) h.answered_work;
}
Step-IsTaken {s} (loses_answer before after i e) h =
    let (rows, ws) = more_taken i s h in
    record {
      marked_rows = rows;
      answered_work =
          All-replaced (IsTakenWork (i ∷ s.taken)) before after s.workers (worker i posting)
            (worker i failed) e (λ n. absurd (ground arith)) ws;
    }
Step-IsTaken {s} (marks now before after i e) h =
    let (p, rest) =
      All-removed (IsTakenWork s.taken) before after s.workers (worker i answered) e
        h.answered_work in
    record {
      marked_rows =
          update_row-All (IsTakenRow s.taken) i (mark_processed now) s.rows
            (λ r is_i _ _. subst (λ (k : ℕ). in_ids k s.taken ≡ true) (sym is_i) (p refl))
            h.marked_rows;
      answered_work = rest;
    }
Step-IsTaken {s} (releases before after i e) h = record {
  marked_rows =
      update_row-All (IsTakenRow s.taken) i release_claim s.rows (λ r _ p n. ground (arith, p))
        h.marked_rows;
  answered_work =
      (All-removed (IsTakenWork s.taken) before after s.workers (worker i failed) e
        h.answered_work).1;
}
Step-IsTaken {s} (crashes before after i phase e) h = record {
  marked_rows = h.marked_rows;
  answered_work =
      (All-removed (IsTakenWork s.taken) before after s.workers (worker i phase) e
        h.answered_work).1;
}
Step-IsTaken {s} (emits i event_type payload fresh) h = record {
  marked_rows =
      All-append (IsTakenRow s.taken) s.rows (new_row i event_type payload ∷ []) h.marked_rows
        (λ n. absurd (ground arith), tt);
  answered_work = h.answered_work;
}

Reach-IsTaken : {s t : Site} → Reach s t → IsTaken s → IsTaken t
Reach-IsTaken start h = h
Reach-IsTaken (next r st) h = Step-IsTaken st (Reach-IsTaken r h)

-- However many workers run, and whatever their interleaving, their crashes and the webhook's answers:
-- from a table with no row marked and no worker under way, a row is marked as processed only if the
-- webhook has taken it.
pub marked_was_taken :
    {s t : Site}
    → All (λ r. is_pending r ≡ true) s.rows
    → s.workers ≡ []
    → Reach s t
    → All (IsTakenRow t.taken) t.rows
marked_was_taken {s} fresh idle r =
    (Reach-IsTaken r (record {
      marked_rows =
          All-map (λ x. is_pending x ≡ true) (IsTakenRow s.taken)
            (λ x p n. absurd (ground (arith, p, n))) s.rows fresh;
      answered_work = subst (All (IsTakenWork s.taken)) (sym idle) tt;
    })).marked_rows
