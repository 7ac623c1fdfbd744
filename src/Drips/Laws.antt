-- ===== src/Drips/Laws.antt =====
-- Enrollment, exit and advance keep their promises.
use jp_adopt_core.Prelude.{
  ◌⊎◌, inl, inr, Bool-cases, ℕ, ◌+◌, String, ◌≡◌, refl, true, false, Option, none, some, List, [],
  ◌∷◌, ◌++◌, ◌==◌, ◌&&◌, arith,
}
use jp_adopt_core.Models.{Contact}
use jp_adopt_core.Drips.Rows.{Campaign, is_open, Enrollment, Tables}
use jp_adopt_core.Drips.Engine.{
  created, already_enrolled, find_open, new_enrollment, insert_enrollment,
  enroll_contact_in_campaign, enroll_all, enroll_matching, active_campaigns_for, enroll_on_event,
}

find_open-append :
    (c k : ℕ) (es : List Enrollment) (e : Enrollment)
    → find_open c k es ≡ none
    → (e.campaign_id == c && e.contact_id == k && is_open e.state) ≡ true
    → find_open c k (es ++ e ∷ []) ≡ some e
find_open-append c k [] e h m = ground arith
find_open-append c k (x ∷ es) e h m = ground (arith, find_open-append c k es e)

-- Enrolling a contact a second time in the same campaign changes nothing and reports the
-- enrollment that the first call created.
enroll_twice :
    (campaign : Campaign) (contact : Contact) (i j m n : ℕ) (t : Tables)
    → (enroll_contact_in_campaign campaign contact i m t).0.reason ≡ created
    → let (first, t') = enroll_contact_in_campaign campaign contact i m t in
      let (second, t'') = enroll_contact_in_campaign campaign contact j n t' in
      (t'' ≡ t') × (second.reason ≡ already_enrolled) × (second.enrollment_id ≡ first.enrollment_id)
unfolding enroll_contact_in_campaign
enroll_twice campaign contact i j m n t h = ground (
  arith,
  find_open-append campaign.id contact.id t.enrollments (new_enrollment t campaign contact i m),
)

-- No pair of campaign and contact has two open enrollments.
abbrev pub IsOneOpen : List Enrollment → Type 0
IsOneOpen [] = Unit
IsOneOpen (e ∷ es) =
    ((is_open e.state ≡ false) ⊎ (find_open e.campaign_id e.contact_id es ≡ none)) × IsOneOpen es

find_open-append_other :
    (c k : ℕ) (es : List Enrollment) (e : Enrollment)
    → find_open c k es ≡ none
    → (e.campaign_id == c && e.contact_id == k && is_open e.state) ≡ false
    → find_open c k (es ++ e ∷ []) ≡ none
find_open-append_other c k [] e h m = ground arith
find_open-append_other c k (x ∷ es) e h m = ground (arith, find_open-append_other c k es e)

append-IsOneOpen :
    (es : List Enrollment) (e : Enrollment)
    → find_open e.campaign_id e.contact_id es ≡ none
    → IsOneOpen es
    → IsOneOpen (es ++ e ∷ [])
append-IsOneOpen [] e h one = (inr refl, tt)
append-IsOneOpen (x ∷ es) e h one = (
  elim (Bool-cases (is_open x.state)) [
    | inr o ↦ inl o
    | inl o ↦
        inr (find_open-append_other x.campaign_id x.contact_id es e (ground arith) (ground arith))
  ],
  append-IsOneOpen es e (ground arith) one.1,
)

insert-IsOneOpen :
    (e : Enrollment) (old : Option Enrollment) (t : Tables)
    → find_open e.campaign_id e.contact_id t.enrollments ≡ old
    → IsOneOpen t.enrollments
    → IsOneOpen (insert_enrollment e old t).1.enrollments
insert-IsOneOpen e none t f one = append-IsOneOpen t.enrollments e f one
insert-IsOneOpen e (some x) t f one = one

enroll-IsOneOpen :
    (c : Campaign) (contact : Contact) (i now : ℕ) (t : Tables)
    → IsOneOpen t.enrollments
    → IsOneOpen (enroll_contact_in_campaign c contact i now t).1.enrollments
unfolding enroll_contact_in_campaign
enroll-IsOneOpen c contact i now t one = ground (
  arith,
  insert-IsOneOpen (new_enrollment t c contact i now) (find_open c.id contact.id t.enrollments) t
      refl one,
)

enroll_all-IsOneOpen :
    (cs : List Campaign) (contact : Contact) (i now : ℕ) (t : Tables)
    → IsOneOpen t.enrollments
    → IsOneOpen (enroll_all cs contact i now t).1.enrollments
unfolding enroll_all
enroll_all-IsOneOpen [] contact i now t one = one
enroll_all-IsOneOpen (c ∷ cs) contact i now t one =
    enroll_all-IsOneOpen cs contact (i + 1) now (enroll_contact_in_campaign c contact i now t).1
      (enroll-IsOneOpen c contact i now t one)

enroll_matching-IsOneOpen :
    (cs : List Campaign) (contact : Contact) (i now : ℕ) (t : Tables)
    → IsOneOpen t.enrollments
    → IsOneOpen (enroll_matching cs contact i now t).1.enrollments
enroll_matching-IsOneOpen [] contact i now t one = one
enroll_matching-IsOneOpen (c ∷ cs) contact i now t one =
    enroll_all-IsOneOpen (c ∷ cs) contact i now t one

-- If no pair of campaign and contact has two open enrollments, none has after the reaction to an
-- event, whatever the event and the contact.
pub enroll_on_event-IsOneOpen :
    (event_type : String) (contact : Option Contact) (i now : ℕ) (t : Tables)
    → IsOneOpen t.enrollments
    → IsOneOpen (enroll_on_event event_type contact i now t).1.enrollments
unfolding enroll_on_event
enroll_on_event-IsOneOpen event_type none i now t one = one
enroll_on_event-IsOneOpen event_type (some c) i now t one =
    enroll_matching-IsOneOpen (active_campaigns_for event_type t.campaigns) c i now t one
