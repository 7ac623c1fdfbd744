-- ===== src/Drips/Enrolls.antt =====
-- Whom the reaction to an event enrolls, and whom it does not.
use jp_adopt_core.Prelude.{
  ◌==◌, ==_iff, ◌=ₛ◌, ◌∙◌, ◌⊎◌, inl, inr, Bool-cases, Option-cases, ℕ, ◌+◌, String, ◌≡◌, ◌≢◌, refl,
  sym, ap, true, false, Option, none, some, List, [], ◌∷◌, ◌++◌, ◌&&◌, arith, All, All-map,
  All-append, All-Memᴰ, =ₛ_iff,
}
use mathlib.Core.List.{Memᴰ, append-nil, append_assoc}
use mathlib.Core.Path.{subst}
use jp_adopt_core.Models.{Contact}
use jp_adopt_core.Drips.Rows.{
  is_open, Campaign, CampaignStep, Enrollment, active, Tables, next_step,
}
use jp_adopt_core.Drips.Engine.{
  opted_out, is_blocked, find_open, new_enrollment, insert_enrollment, enroll_contact_in_campaign,
  has_trigger, active_campaigns_for, enroll_all, enroll_matching, enroll_on_event,
}
use jp_adopt_core.Drips.Laws.{IsOneOpen, enroll_on_event-IsOneOpen}

-- The tables with other enrollments.
abbrev with_enrollments : List Enrollment → Tables → Tables
with_enrollments es t = record t { enrollments = es }

-- The contact has not opted out, and its address is not suppressed.
abbrev pub MayBeEnrolled : Tables → Contact → Type 0
MayBeEnrolled t contact =
    (contact.adopter_status ≢ some "do_not_engage")
    × (is_blocked t contact.email_normalized ≡ false)

-- An active campaign of the tables that the event triggers.
abbrev pub IsTriggered : Tables → String → Campaign → Type 0
IsTriggered t event_type c =
    Memᴰ c t.campaigns × (c.is_active ≡ true) × (c.trigger_event_type ≡ some event_type)

-- A new enrollment of the contact, at the start of a campaign that the event triggers.
abbrev pub IsEnrolled : Tables → String → Contact → ℕ → Enrollment → Type 0
IsEnrolled t event_type contact now e =
    MayBeEnrolled t contact
    × (c : Campaign) × IsTriggered t event_type c
    × (e.campaign_id ≡ c.id)
    × (e.campaign_version ≡ c.version)
    × (e.contact_id ≡ contact.id)
    × (e.state ≡ active)
    × (e.enrolled_at ≡ now)
    × (e.last_step_sent_at ≡ none)
    × ((next_step c.id 0 t.steps ≡ none)
        ⊎ ((s : CampaignStep) × (next_step c.id 0 t.steps ≡ some s)
            × (e.current_step_position ≡ s.position)))

opted_out-lem : (c : Contact) → opted_out c ≡ false → c.adopter_status ≢ some "do_not_engage"
opted_out-lem c h e =
    let h' : opted_out (record c { adopter_status = some "do_not_engage" }) ≡ false =
      subst (λ (o : Option String). opted_out (record c { adopter_status = o }) ≡ false) e h in
    absurd (cc h')

has_trigger-lem :
    (event_type : String) (o : Option String)
    → has_trigger event_type o ≡ true
    → o ≡ some event_type
has_trigger-lem event_type none h = absurd (ground arith)
has_trigger-lem event_type (some e) h = ap some ((=ₛ_iff e event_type).0 h)

-- The contact has an open enrollment in the campaign.
abbrev pub IsInside : List Enrollment → Contact → Campaign → Type 0
IsInside es contact c = (e : Enrollment) × (find_open c.id contact.id es ≡ some e)

find_open-keeps :
    (c k : ℕ) (es xs : List Enrollment) (e : Enrollment)
    → find_open c k es ≡ some e
    → find_open c k (es ++ xs) ≡ some e
find_open-keeps c k [] xs e h = absurd (ground arith)
find_open-keeps c k (x ∷ es) xs e h = ground (arith, find_open-keeps c k es xs e)

find_open-last :
    (c k : ℕ) (es : List Enrollment) (e : Enrollment)
    → find_open c k es ≡ none
    → (e.campaign_id == c && e.contact_id == k && is_open e.state) ≡ true
    → find_open c k (es ++ e ∷ []) ≡ some e
find_open-last c k [] e h m = ground arith
find_open-last c k (x ∷ es) e h m = ground (arith, find_open-last c k es e)

module _ (t : Tables) (contact : Contact) (now : ℕ) (free : opted_out contact ≡ false)
    (listed : is_blocked t contact.email_normalized ≡ false) where
  enroll-IsInside :
      (c : Campaign) (i : ℕ) (es : List Enrollment)
      → (xs : List Enrollment) × ((enroll_contact_in_campaign c contact i now
            (with_enrollments es t)).1
          ≡ with_enrollments (es ++ xs) t)
        × IsInside (es ++ xs) contact c
  unfolding enroll_contact_in_campaign
  enroll-IsInside c i es = elim (Option-cases (find_open c.id contact.id es)) [
    | inr (old, e) ↦ (
      [],
      rw (free, listed, e, insert_enrollment)
          (ap (λ l. with_enrollments l t) (sym (append-nil es))),
      (old, find_open-keeps c.id contact.id es [] old e),
    )
    | inl e ↦
        let row = new_enrollment (with_enrollments es t) c contact i now in
        (
          row ∷ [],
          rw (free, listed, e, insert_enrollment) refl,
          (
            row,
            find_open-last c.id contact.id es row e
                (rw ((==_iff c.id c.id).1 refl, (==_iff contact.id contact.id).1 refl) refl),
          ),
        )
  ]

  enroll_all-IsInside :
      (cs : List Campaign) (i : ℕ) (es : List Enrollment)
      → (xs : List Enrollment) × ((enroll_all cs contact i now
            (with_enrollments es t)).1.enrollments
          ≡ es ++ xs)
        × All (IsInside (es ++ xs) contact) cs
  unfolding enroll_all
  enroll_all-IsInside [] i es = ([], sym (append-nil es), tt)
  enroll_all-IsInside (c ∷ cs) i es =
      let (xs, e, (row, inside)) = enroll-IsInside c i es in
      let (ys, k, rest) = enroll_all-IsInside cs (i + 1) (es ++ xs) in
      (
        xs ++ ys,
        ap (λ (x : Tables). (enroll_all cs contact (i + 1) now x).1.enrollments) e
            ∙ k
            ∙ append_assoc es xs ys,
        (
          (
            row,
            subst (λ l. find_open c.id contact.id l ≡ some row) (append_assoc es xs ys)
                (find_open-keeps c.id contact.id (es ++ xs) ys row inside),
          ),
          subst (λ l. All (IsInside l contact) cs) (append_assoc es xs ys) rest,
        ),
      )

  enroll_matching-IsInside :
      (cs : List Campaign) (i : ℕ)
      → All (IsInside (enroll_matching cs contact i now t).1.enrollments contact) cs
  enroll_matching-IsInside [] i = tt
  enroll_matching-IsInside (c ∷ cs) i =
      let (xs, e, inside) = enroll_all-IsInside (c ∷ cs) i t.enrollments in
      subst (λ l. All (IsInside l contact) (c ∷ cs)) (sym e) inside

-- An inactive campaign, one that the event does not trigger, or one that the contact is in.
abbrev pub IsSettled : String → List Enrollment → Contact → Campaign → Type 0
IsSettled event_type es contact c =
    (c.is_active ≡ false) ⊎ (c.trigger_event_type ≢ some event_type) ⊎ IsInside es contact c

untriggered :
    (event_type : String) (o : Option String)
    → has_trigger event_type o ≡ false
    → o ≢ some event_type
untriggered event_type o h e =
    let on : has_trigger event_type o ≡ true = rw e ((=ₛ_iff event_type event_type).1 refl) in
    ground arith

triggered_campaigns :
    (event_type : String) (es : List Enrollment) (contact : Contact) (cs : List Campaign)
    → All (IsInside es contact) (active_campaigns_for event_type cs)
    → All (IsSettled event_type es contact) cs
unfolding active_campaigns_for
triggered_campaigns event_type es contact [] h = tt
triggered_campaigns event_type es contact (c ∷ cs) h = elim (Bool-cases c.is_active) [
  | inr off ↦ (inl off, triggered_campaigns event_type es contact cs (rw off at h))
  | inl on ↦ elim (Bool-cases (has_trigger event_type c.trigger_event_type)) [
    | inr other ↦ (
      inr (inl (untriggered event_type c.trigger_event_type other)),
      triggered_campaigns event_type es contact cs (rw (on, other) at h),
    )
    | inl its ↦
        let k : IsInside es contact c
            × All (IsInside es contact) (active_campaigns_for event_type cs) =
          (rw (on, its) at h) in
        (inr (inr k.0), triggered_campaigns event_type es contact cs k.1)
  ]
]

is_opted_out :
    (c : Contact) (o : Option String)
    → c.adopter_status ≡ o
    → opted_out c ≡ true
    → o ≡ some "do_not_engage"
is_opted_out c none e h = absurd (cc (rw e at h))
is_opted_out c (some s) e h =
    let h' : s =ₛ "do_not_engage" ≡ true = (rw e at h) in ap some ((=ₛ_iff s "do_not_engage").0 h')

module _ (t : Tables) (event_type : String) (contact : Contact) (now : ℕ) where
  abbrev Good : Enrollment → Type 0
  Good e = Memᴰ e t.enrollments ⊎ IsEnrolled t event_type contact now e

  new_enrollment-IsEnrolled :
      (c : Campaign) (i : ℕ) (es : List Enrollment)
      → MayBeEnrolled t contact
      → IsTriggered t event_type c
      → IsEnrolled t event_type contact now (new_enrollment (with_enrollments es t) c contact i now)
  new_enrollment-IsEnrolled c i es may trig =
      (may, c, trig, refl, refl, refl, refl, refl, refl, start (next_step c.id 0 t.steps) refl)
    where
      start :
          (o : Option CampaignStep)
          → next_step c.id 0 t.steps ≡ o
          → (next_step c.id 0 t.steps ≡ none)
            ⊎ ((s : CampaignStep) × (next_step c.id 0 t.steps ≡ some s)
                × ((new_enrollment (with_enrollments es t) c contact i now).current_step_position
                    ≡ s.position))
      start none e = inl e
      start (some s) e = inr (s, e, rw e refl)

  -- One enrollment: the other tables stay, and the new row is a good one.
  enroll_one :
      (c : Campaign) (i : ℕ) (es : List Enrollment)
      → IsTriggered t event_type c
      → All Good es
      → (es' : List Enrollment) × ((enroll_contact_in_campaign c contact i now
            (with_enrollments es t)).1
          ≡ with_enrollments es' t)
        × All Good es'
  unfolding enroll_contact_in_campaign
  enroll_one c i es trig good = elim (Bool-cases (opted_out contact)) [
    | inl out ↦ (es, rw out refl, good)
    | inr in_ ↦ elim (Bool-cases (is_blocked t contact.email_normalized)) [
      | inl b ↦ (es, rw (in_, b) refl, good)
      | inr free ↦ elim (Option-cases (find_open c.id contact.id es)) [
        | inr (old, e) ↦ (es, rw (in_, free, e, insert_enrollment) refl, good)
        | inl e ↦
            let row = new_enrollment (with_enrollments es t) c contact i now in
            (
              es ++ row ∷ [],
              rw (in_, free, e, insert_enrollment) refl,
              All-append Good es (row ∷ []) good (
                inr (new_enrollment-IsEnrolled c i es (opted_out-lem contact in_, free) trig),
                tt,
              ),
            )
      ]
    ]
  ]

  enroll_all-Good :
      (cs : List Campaign) (i : ℕ) (es : List Enrollment)
      → All (IsTriggered t event_type) cs
      → All Good es
      → All Good (enroll_all cs contact i now (with_enrollments es t)).1.enrollments
  unfolding enroll_all
  enroll_all-Good [] i es trig good = good
  enroll_all-Good (c ∷ cs) i es trig good =
      let (es', e, good') = enroll_one c i es trig.0 good in
      subst (λ (x : Tables). All Good (enroll_all cs contact (i + 1) now x).1.enrollments) (sym e)
        (enroll_all-Good cs (i + 1) es' trig.1 good')

  active_campaigns-IsTriggered :
      (cs : List Campaign)
      → All (λ c. Memᴰ c t.campaigns) cs
      → All (IsTriggered t event_type) (active_campaigns_for event_type cs)
  unfolding active_campaigns_for
  active_campaigns-IsTriggered [] m = tt
  active_campaigns-IsTriggered (c ∷ cs) m =
      elim (Bool-cases (c.is_active && has_trigger event_type c.trigger_event_type)) [
        | inl e ↦ rw e (
          (m.0, ground arith, has_trigger-lem event_type c.trigger_event_type (ground arith)),
          active_campaigns-IsTriggered cs m.1,
        )
        | inr e ↦ rw e (active_campaigns-IsTriggered cs m.1)
      ]

  enroll_matching-Good :
      (cs : List Campaign) (i : ℕ)
      → All (IsTriggered t event_type) cs
      → All Good (enroll_matching cs contact i now t).1.enrollments
  enroll_matching-Good [] i trig = All-map _ Good (λ e m. inl m) _ (All-Memᴰ t.enrollments)
  enroll_matching-Good (c ∷ cs) i trig =
      enroll_all-Good (c ∷ cs) i t.enrollments trig
        (All-map _ Good (λ e m. inl m) _ (All-Memᴰ t.enrollments))

  -- A contact that may be enrolled is in every campaign that the event triggers.
  settled :
      (i : ℕ)
      → let after =
          (enroll_matching
            (active_campaigns_for event_type t.campaigns)
            contact
            i
            now
            t).1.enrollments in
        (contact.adopter_status ≡ some "do_not_engage")
        ⊎ (is_blocked t contact.email_normalized ≡ true)
        ⊎ All (IsSettled event_type after contact) t.campaigns
  settled i = elim (Bool-cases (opted_out contact)) [
    | inl out ↦ inl (is_opted_out contact contact.adopter_status refl out)
    | inr free ↦ elim (Bool-cases (is_blocked t contact.email_normalized)) [
      | inl listed ↦ inr (inl listed)
      | inr open_ ↦ inr (
          inr (
            triggered_campaigns event_type _ contact t.campaigns (
              enroll_matching-IsInside t contact now free open_
                (active_campaigns_for event_type t.campaigns) i)))
    ]
  ]

  -- After the reaction to an event, every enrollment is an old one, or a new one of the contact at the
  -- first step of an active campaign that the event triggers; there is a new one only if the contact
  -- has not opted out and its address is not suppressed. Such a contact has an open enrollment in every
  -- active campaign that the event triggers. And if no pair of campaign and contact had two open
  -- enrollments, none has afterwards.
  pub enroll_on_event_enrolls :
      (i : ℕ)
      → IsOneOpen t.enrollments
      → let after = (enroll_on_event event_type (some contact) i now t).1.enrollments in
        All (λ e. Memᴰ e t.enrollments ⊎ IsEnrolled t event_type contact now e) after
        × ((contact.adopter_status ≡ some "do_not_engage")
            ⊎ (is_blocked t contact.email_normalized ≡ true)
            ⊎ All (IsSettled event_type after contact) t.campaigns)
        × IsOneOpen after
  unfolding enroll_on_event
  enroll_on_event_enrolls i one = (
    enroll_matching-Good (active_campaigns_for event_type t.campaigns) i
        (active_campaigns-IsTriggered t.campaigns (All-Memᴰ t.campaigns)),
    settled i,
    enroll_on_event-IsOneOpen event_type (some contact) i now t one,
  )
