-- ===== src/Delivery/Rows.antt =====
-- A property of the rows or the workers, kept by claims, by updates and by a worker's departure.
use jp_adopt_core.Prelude.{
  ℕ, ◌≡◌, Option, some, List, [], ◌∷◌, ◌++◌, ◌==◌, ==_iff, ◌&&◌, All, All-append, Bool-cases, ap,
  inl, inr,
}
use mathlib.Core.Path.{subst}
use jp_adopt_core.Outbox.{OutboxRow}
use jp_adopt_core.Delivery.Batch.{is_pending, is_free, claim_row, update_row}

All-split :
    {A : Type 0} (P : A → Type 0) (xs ys : List A) (y : A)
    → All P (xs ++ y ∷ ys)
    → P y × All P (xs ++ ys) × ((z : A) → P z → All P (xs ++ z ∷ ys))
All-split P [] ys y h = (h.0, h.1, λ z p. (p, h.1))
All-split P (x ∷ xs) ys y h =
    let (p, rest, put) = All-split P xs ys y h.1 in (p, (h.0, rest), λ z q. (h.0, put z q))

pub All-parts :
    {A : Type 0} (P : A → Type 0) (xs ys : List A) → All P (xs ++ ys) → All P xs × All P ys
All-parts P [] ys h = (tt, h)
All-parts P (x ∷ xs) ys h = let (a, b) = All-parts P xs ys h.1 in ((h.0, a), b)

claimed-All :
    (P : OutboxRow → Type 0) (stale now : ℕ) (rows : List OutboxRow)
    → ((x : OutboxRow) → P x → P (record x { claimed_at = some now }))
    → All P rows
    → All P (claim_row stale now rows).1
unfolding claim_row
claimed-All P stale now [] k h = tt
claimed-All P stale now (r ∷ rows) k h = elim (Bool-cases (is_pending r && is_free stale r)) [
  | inl e ↦ rw e (k r h.0, h.1)
  | inr e ↦ rw e (h.0, claimed-All P stale now rows k h.1)
]

pub claim_row-All :
    (P : OutboxRow → Type 0) (stale now : ℕ) (locked rows claimed before : List OutboxRow)
    → (r : OutboxRow) → ((x : OutboxRow) → P x → P (record x { claimed_at = some now }))
    → before ≡ locked ++ rows
    → claim_row stale now rows ≡ (some r, claimed)
    → All P before
    → All P (locked ++ claimed)
claim_row-All P stale now locked rows claimed before r k split e h =
    let (l, rest) = All-parts P locked rows (subst (All P) split h) in
    All-append P locked claimed l (
      subst (All P) (ap (λ (c : Option OutboxRow × List OutboxRow). c.1) e)
        (claimed-All P stale now rows k rest))

pub update_row-All :
    (P : OutboxRow → Type 0) (i : ℕ) (f : OutboxRow → OutboxRow) (rows : List OutboxRow)
    → ((r : OutboxRow) → r.id ≡ i → P r → P (f r))
    → All P rows
    → All P (update_row i f rows)
update_row-All P i f [] k h = tt
update_row-All P i f (r ∷ rows) k h = elim (Bool-cases (r.id == i)) [
  | inl e ↦ rw e (k r ((==_iff r.id i).0 e) h.0, h.1)
  | inr e ↦ rw e (h.0, update_row-All P i f rows k h.1)
]

-- A worker that is put back in another phase, or taken out of the list.
pub All-replaced :
    {A : Type 0} (P : A → Type 0) (before after ws : List A) (w w' : A)
    → ws ≡ before ++ w ∷ after
    → P w'
    → All P ws
    → All P (before ++ w' ∷ after)
All-replaced P before after ws w w' e new h =
    let (_, _, put) = All-split P before after w (subst (All P) e h) in put w' new

pub All-removed :
    {A : Type 0} (P : A → Type 0) (before after ws : List A) (w : A)
    → ws ≡ before ++ w ∷ after
    → All P ws
    → P w × All P (before ++ after)
All-removed P before after ws w e h =
    let (p, rest, _) = All-split P before after w (subst (All P) e h) in (p, rest)
