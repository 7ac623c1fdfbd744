-- ===== src/Intake/Claims.antt =====
-- Lookups in the table of idempotency keys after its writes.
use jp_adopt_core.Prelude.{
  ℕ, ◌≡◌, refl, false, none, some, List, [], ◌∷◌, ◌++◌, ◌&&◌, if◌then◌else◌, arith,
}
use jp_adopt_core.Text.{Text, text_eq, text_eq_iff}
use jp_adopt_core.Intake.Rows.{Response, ApiIdempotencyKey}
use jp_adopt_core.Intake.Access.{find_claim, finalize, complete}

pub find_claim-append :
    (a k : Text) (rows : List ApiIdempotencyKey) (r : ApiIdempotencyKey)
    → find_claim a k (rows ++ r ∷ []) ≡ elim (find_claim a k rows) [
      | some x ↦ some x
      | none ↦ if text_eq r.api_key_id a && text_eq r.key k then some r else none
    ]
find_claim-append a k [] r = refl
find_claim-append a k (x ∷ rows) r = ground (arith, find_claim-append a k rows r)

-- A claim's own row, when it is finished.
pub find_claim-finalize :
    (a k : Text) (now : ℕ) (r : Response) (rows : List ApiIdempotencyKey) (x : ApiIdempotencyKey)
    → find_claim a k rows ≡ some x
    → find_claim a k (finalize a k now r rows) ≡ some (complete now r x)
find_claim-finalize a k now r [] x h = ground arith
find_claim-finalize a k now r (y ∷ rows) x h = ground (arith, find_claim-finalize a k now r rows x)

-- Another pair's row.
pub find_claim-finalize_other :
    (a k a' k' : Text) (now : ℕ) (r : Response) (rows : List ApiIdempotencyKey)
    → text_eq a' a && text_eq k' k ≡ false
    → find_claim a k (finalize a' k' now r rows) ≡ find_claim a k rows
find_claim-finalize_other a k a' k' now r [] h = refl
find_claim-finalize_other a k a' k' now r (y ∷ rows) h = ground (
  arith,
  find_claim-finalize_other a k a' k' now r rows h,
  text_eq_iff y.api_key_id a,
  text_eq_iff y.api_key_id a',
  text_eq_iff y.key k,
  text_eq_iff y.key k',
  text_eq_iff a' a,
  text_eq_iff k' k,
)
