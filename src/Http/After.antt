-- ===== src/Http/After.antt =====
-- Reasoning about handlers: what holds of the answer and the state when a handler succeeds.
use jp_adopt_core.Prelude.{◌≡◌, refl, sym, ap, Bool, true, false, Option, none, some, arith}
use mathlib.Core.Path.{subst}
use jp_adopt_core.Http.{
  HttpError, Outcome, done, fail, Handler, ◌>>=◌, or_raise, raise_unless, atomically,
}

done_value : {A : Type 0} (a b : A) → ◌≡◌ {A = Outcome A} (done a) (done b) → a ≡ b
done_value a b e = ap (λ r. elim r [ done c ↦ c | fail _ ↦ a ]) e

-- `Q` holds of the answer and the state, if the handler succeeded.
abbrev pub After : {S A : Type 0} → (A → S → Type 0) → Outcome A × S → Type 0
After Q (done a, s) = Q a s
After Q (fail e, s) = Unit

pub After-map :
    {S A : Type 0} (P Q : A → S → Type 0) (r : Outcome A × S)
    → After P r
    → ((a : A) (s : S) → P a s → Q a s)
    → After Q r
After-map P Q (done a, s) h k = k a s h
After-map P Q (fail e, s) h k = tt

pub After-always : {S A : Type 0} {P : Type 0} (r : Outcome A × S) → P → After (λ _ _. P) r
After-always (done a, s) p = p
After-always (fail e, s) p = tt

pub After-bind :
    {S A B : Type 0} (m : Handler S A) (f : A → Handler S B) (s : S) (R : A → S → Type 0)
    → (Q : B → S → Type 0) → After R (m s)
    → ((a : A) (s' : S) → R a s' → After Q (f a s'))
    → After Q ((m >>= f) s)
After-bind {S} {A} {B} m f s R Q h k = go (m s) h
  where
    go :
        (r : Outcome A × S)
        → After R r
        → After Q (elim r.0 as (λ _. Outcome B × S) [ done a ↦ f a r.1 | fail e ↦ (fail e, r.1) ])
    go (done a, s') g = k a s' g
    go (fail e, s') g = tt

pub After-or_raise :
    {S A B : Type 0} (o : Option A) (e : HttpError) (f : A → Handler S B) (s : S)
    → (Q : B → S → Type 0) → ((a : A) → o ≡ some a → After Q (f a s))
    → After Q ((or_raise o e >>= f) s)
After-or_raise none e f s Q k = tt
After-or_raise (some a) e f s Q k = k a refl

pub After-raise_unless :
    {S B : Type 0} (b : Bool) (e : HttpError) (f : Unit {0} → Handler S B) (s : S)
    → (Q : B → S → Type 0) → (b ≡ true → After Q (f tt s))
    → After Q ((raise_unless b e >>= f) s)
After-raise_unless false e f s Q k = tt
After-raise_unless true e f s Q k = k refl

-- A handler that writes nothing, before another.
pub After-read :
    {S A B : Type 0} (m : Handler S A) (f : A → Handler S B) (s : S) (Q : B → S → Type 0)
    → (m s).1 ≡ s
    → ((a : A) → m s ≡ (done a, s) → After Q (f a s))
    → After Q ((m >>= f) s)
After-read {S} {A} {B} m f s Q same k = go (m s) refl same
  where
    go :
        (r : Outcome A × S)
        → m s ≡ r
        → r.1 ≡ s
        → After Q (elim r.0 as (λ _. Outcome B × S) [ done a ↦ f a r.1 | fail e ↦ (fail e, r.1) ])
    go (done a, s') e q =
        subst (λ t. After Q (f a t)) (sym q) (k a (rw e (ap (λ t. (done a, t)) q)))
    go (fail e', s') e q = tt

-- What holds of a success, at an answer that the transaction gave.
pub After-done :
    {S A : Type 0} (m : Handler S A) (s : S) (Q : A → S → Type 0) (a : A)
    → After Q (m s)
    → (atomically m s).0 ≡ done a
    → Q a (atomically m s).1
After-done {S} {A} m s Q a h = go (m s) h
  where
    go :
        (r : Outcome A × S)
        → After Q r
        → let t = elim r.0 as (λ _. Outcome A × S) [
          | done b ↦ (done b, r.1)
          | fail e ↦ (fail e, s)
        ] in
          t.0 ≡ done a → Q a t.1
    go (done b, s') g e = subst (λ c. Q c s') (done_value b a e) g
    go (fail e', s') g e = absurd (ground arith)

-- A handler that keeps a property when it succeeds keeps it in its transaction.
pub After-atomically :
    {S A : Type 0} (m : Handler S A) (s : S) (P : S → Type 0)
    → P s
    → After (λ _ s'. P s') (m s)
    → P (atomically m s).1
After-atomically {S} {A} m s P p h = go (m s) h
  where
    go :
        (r : Outcome A × S)
        → After (λ _ s'. P s') r
        → P (elim r.0 as (λ _. Outcome A × S) [ done a ↦ (done a, r.1) | fail e ↦ (fail e, s) ]).1
    go (done a, s') g = g
    go (fail e, s') g = p
