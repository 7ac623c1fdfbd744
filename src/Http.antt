-- ===== src/Http.antt =====
-- Request handlers: a state-passing action that may raise an HTTPException, and the mapping of the
-- state machine's exceptions in domain/state_machine_errors.py.
pub mod After
use jp_adopt_core.Prelude.{ℕ, String, Bool, true, false, Option, none, some}
use jp_adopt_core.Workflow.Transition.{
  TransitionError, illegal_transition, role_not_permitted, reason_required, invalid_reason_code,
  concurrent_modification, no_result_found,
}

-- The status code and the `code` of the detail; a plain detail is its text.
pub record HttpError : Type 0 where
  pub status_code : ℕ
  pub code : String

pub data Outcome (A : Type 0) : Type 0 where
  done : A → Outcome A
  fail : HttpError → Outcome A

abbrev pub Handler : Type 0 → Type 0 → Type 0
Handler S A = S → Outcome A × S

infixl 5 ◌>>=◌ ◌>>◌
abbrev pub ◌>>=◌ : {S A B : Type 0} → Handler S A → (A → Handler S B) → Handler S B
◌>>=◌ m f s = let (r, s') = m s in elim r [ done a ↦ f a s' | fail e ↦ (fail e, s') ]

abbrev pub ◌>>◌ : {S A B : Type 0} → Handler S A → Handler S B → Handler S B
m >> k = m >>= λ _. k

abbrev pub pure : {S A : Type 0} → A → Handler S A
pure a s = (done a, s)

abbrev pub http_error : ℕ → String → HttpError
http_error status_code code = record { status_code = status_code; code = code }

abbrev pub raise : {S A : Type 0} → HttpError → Handler S A
raise e s = (fail e, s)

abbrev pub or_raise : {S A : Type 0} → Option A → HttpError → Handler S A
or_raise none e = raise e
or_raise (some a) e = pure a

abbrev pub raise_unless : {S : Type 0} → Bool → HttpError → Handler S (Unit {0})
raise_unless true e = pure tt
raise_unless false e = raise e

-- What the framework answers when a handler raises anything else.
abbrev pub internal_server_error : HttpError
internal_server_error = http_error 500 "internal_server_error"

-- `map_state_machine_exception`. NoResultFound is not among its cases, and escapes.
unfoldable pub map_state_machine_exception : TransitionError → HttpError
map_state_machine_exception reason_required = http_error 400 "reason_required"
map_state_machine_exception (invalid_reason_code code allowed) =
    http_error 400 "invalid_reason_code"
map_state_machine_exception (role_not_permitted role required) = http_error 403 "role_not_permitted"
map_state_machine_exception (illegal_transition frm to) = http_error 409 "illegal_transition"
map_state_machine_exception (concurrent_modification i expected actual) =
    http_error 409 "concurrent_modification"
map_state_machine_exception no_result_found = internal_server_error

abbrev pub gets : {S A : Type 0} → (S → A) → Handler S A
gets f s = (done (f s), s)

abbrev pub succeeds : {S A : Type 0} → Outcome A × S → Bool
succeeds (done a, s) = true
succeeds (fail e, s) = false

-- The request's transaction: what a handler that raises has written is rolled back.
abbrev pub atomically : {S A : Type 0} → Handler S A → Handler S A
atomically m s = let (r, s') = m s in elim r [ done a ↦ (done a, s') | fail e ↦ (fail e, s) ]
