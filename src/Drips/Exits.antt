-- ===== src/Drips/Exits.antt =====
-- Exits: closed enrollments stay as they are, and an opted-out contact is left with none open.
use jp_adopt_core.Prelude.{
  ℕ, ◌+◌, ◌≡◌, refl, false, List, [], ◌∷◌, if◌then◌else◌, ◌==◌, ◌&&◌, arith, length,
}
use jp_adopt_core.Drips.Rows.{is_open, ExitReason, Enrollment}
use jp_adopt_core.Drips.Engine.{exit_enrollment, exit_enrollments_for_contact}

-- Exiting an enrollment closes it, whatever its state. A second exit, whatever its reason, changes
-- nothing and logs nothing.
exit_idempotent :
    (r q : ExitReason) (m n : ℕ) (e : Enrollment)
    → let (e', logged) = exit_enrollment r m e in
      (is_open e'.state ≡ false) × (exit_enrollment q n e' ≡ (e', []))
unfolding exit_enrollment
exit_idempotent r q m n e = ground arith

-- The open enrollments of a contact.
abbrev pub open_count : ℕ → List Enrollment → ℕ
open_count contact_id [] = 0
open_count contact_id (e ∷ es) =
    (if e.contact_id == contact_id && is_open e.state then 1 else 0) + open_count contact_id es

-- The enrollments of the other contacts.
abbrev pub others : ℕ → List Enrollment → List Enrollment
others contact_id [] = []
others contact_id (e ∷ es) =
    if e.contact_id == contact_id then others contact_id es else e ∷ others contact_id es

-- Exiting a contact's enrollments leaves it no open one, reports how many were open, logs one event
-- for each, and leaves the enrollments of all other contacts as they are.
pub exit_enrollments_lem :
    (contact_id : ℕ) (r : ExitReason) (now : ℕ) (es : List Enrollment)
    → let (es', events, n) = exit_enrollments_for_contact contact_id r now es in
      (open_count contact_id es' ≡ 0)
      × (n ≡ open_count contact_id es)
      × (length events ≡ n)
      × (others contact_id es' ≡ others contact_id es)
unfolding exit_enrollments_for_contact
exit_enrollments_lem contact_id r now [] = (refl, refl, refl, refl)
exit_enrollments_lem contact_id r now (e ∷ es) =
    ground (arith, exit_enrollments_lem contact_id r now es)
