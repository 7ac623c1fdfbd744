-- ===== src/Drips/TickLaws.antt =====
-- A tick: every claimed step is counted once, and an enrollment without a send stays as it was or is
-- closed.
use jp_adopt_core.Prelude.{
  ◌<◌, ℕ, zero, suc, ◌+◌, ◌≤◌, ◌≡◌, ◌⊎◌, inl, inr, Bool, true, false, Option, none, some, List, [],
  ◌∷◌, arith, Bool-cases, Option-cases, leb, length, All, ◌&&◌, take, ◌≢◌, ◌==◌, ◌*◌, String, refl,
  All-map, All-Memᴰ, ==_iff, =ₛ_iff,
}
use mathlib.Core.List.{Memᴰ}
use jp_adopt_core.Drips.Advance.{IsNotBefore, next_step-first}
use mathlib.Core.Path.{subst, sym}
use jp_adopt_core.Models.{Contact}
use jp_adopt_core.Drips.Rows.{
  Campaign, CampaignStep, EnrollmentState, active, is_active, is_open, Enrollment, EventKind,
  Tables, next_step,
}
use jp_adopt_core.Drips.Engine.{
  opted_out, is_blocked, exit_enrollment, delay_over, advance_enrollment,
}
use jp_adopt_core.Drips.Tick.{
  DueStep, find_campaign, find_contact, status_differs, due_row, due_step, insert_by_age, due_steps,
  claim_due_steps, is_within_send_window, Outside, Counted, log, process_due, Counts, tally,
  apply_effect, process_steps, process_due_steps,
}

abbrev pub all_counts : Counts → ℕ
all_counts c = c.sent + c.deferred + c.exited + c.failed

process_steps-counts :
    (out : Outside) (now : ℕ) (ds : List DueStep) (c : Counts) (t : Tables)
    → all_counts (process_steps out now ds c t).0 ≡ all_counts c + length ds
unfolding process_steps
process_steps-counts out now [] c t = omega arith
process_steps-counts out now (d ∷ ds) c t =
    let (counted, e, events) = process_due out now t d in
    ground (arith, process_steps-counts out now ds (tally counted c) (apply_effect e events t))

take-length-le : {A : Type 0} → (n : ℕ) (xs : List A) → length (take n xs) ≤ n
take-length-le zero xs = omega arith
take-length-le (suc n) [] = omega arith
take-length-le (suc n) (x ∷ xs) = omega (arith, take-length-le n xs)

-- A tick counts each claimed step exactly once, as sent, deferred, exited or failed, and claims at
-- most fifty.
tick_counts :
    (out : Outside) (locked : ℕ → Bool) (now : ℕ) (contacts : List Contact) (t : Tables)
    → let c = (process_due_steps out locked now contacts t).0 in
      (all_counts c ≡ length (claim_due_steps locked now 50 t contacts)) × (all_counts c ≤ 50)
unfolding process_due_steps claim_due_steps
tick_counts out locked now contacts t =
    let ds = claim_due_steps locked now 50 t contacts in
    let zero_counts : Counts = record { sent = 0; deferred = 0; exited = 0; failed = 0 } in
    omega (
      arith,
      process_steps-counts out now ds zero_counts t,
      take-length-le 50 (due_steps locked now t contacts t.enrollments),
    )

-- One claimed step whose enrollment is open and which is counted as sent goes to a contact that has
-- not opted out and is not on the suppression list, inside the send window; its log is one
-- `step_sent` event and the enrollment is advanced. Counted as deferred or failed, it leaves the
-- enrollment as it was, to be tried again. Counted as exited, it closes it.
pub process_due_lem :
    (out : Outside) (now : ℕ) (t : Tables) (d : DueStep)
    → is_open d.enrollment.state ≡ true
    → let (counted, e, events) = process_due out now t d in
      ((counted ≡ Counted.sent)
        × (opted_out d.contact ≡ false)
        × (is_blocked t d.contact.email_normalized ≡ false)
        × (is_within_send_window now d.step.send_at_hour d.step.send_at_minute ≡ true)
        × (out.send_succeeds d ≡ true)
        × (e ≡ (advance_enrollment t.steps out.clock d.enrollment).0)
        × (events ≡ log d EventKind.step_sent (some d.step.position) ∷ []))
      ⊎ ((((counted ≡ Counted.deferred) × (events ≡ []))
            ⊎ ((counted ≡ Counted.failed)
                × (events ≡ log d EventKind.send_failed (some d.step.position) ∷ [])))
          × (e ≡ d.enrollment))
      ⊎ ((counted ≡ Counted.exited) × (is_open e.state ≡ false))
unfolding process_due exit_enrollment
process_due_lem out now t d o = ground arith

-- What the tests of the query say of a claimed row.
abbrev Passes : (ℕ → Bool) → ℕ → Tables → List Contact → DueStep → Type 0
Passes locked now t contacts d =
    (locked d.enrollment.id ≡ false)
    × (is_active d.enrollment.state ≡ true)
    × (d.campaign.is_active ≡ true)
    × (status_differs d.contact.adopter_status ≡ true)
    × (delay_over now d.step.delay_days d.enrollment.last_step_sent_at ≡ true)
    × (next_step d.enrollment.campaign_id d.enrollment.current_step_position t.steps ≡ some d.step)
    × (find_contact d.enrollment.contact_id contacts ≡ some d.contact)
    × (find_campaign d.enrollment.campaign_id t.campaigns ≡ some d.campaign)
    × Memᴰ d.enrollment t.enrollments

-- A contact that has a status, and has not opted out.
abbrev pub MayBeMailed : Contact → Type 0
MayBeMailed c = (status : String) × (c.adopter_status ≡ some status) × (status ≢ "do_not_engage")

-- Nothing was sent, or the days of delay since the last send are over.
abbrev pub IsWaitedFor : ℕ → ℕ → Option ℕ → Type 0
IsWaitedFor now delay_days last =
    (last ≡ none) ⊎ ((sent : ℕ) × (last ≡ some sent) × (sent + delay_days * 86400 ≤ now))

-- The first of the campaign's steps from a position on.
abbrev pub IsFirstStep : ℕ → ℕ → List CampaignStep → CampaignStep → Type 0
IsFirstStep campaign_id from steps s =
    (s.campaign_id ≡ campaign_id)
    × (from ≤ s.position)
    × All
        (λ (x : CampaignStep).
          (x.campaign_id ≢ campaign_id) ⊎ (x.position < from) ⊎ (s.position ≤ x.position))
        steps

-- An enrollment that is due, with its step, campaign and contact.
abbrev pub IsDue : (ℕ → Bool) → ℕ → Tables → List Contact → DueStep → Type 0
IsDue locked now t contacts d =
    Memᴰ d.enrollment t.enrollments
    × (d.enrollment.state ≡ active)
    × (locked d.enrollment.id ≡ false)
    × ((d.campaign.id ≡ d.enrollment.campaign_id) × (d.campaign.is_active ≡ true))
    × ((d.contact.id ≡ d.enrollment.contact_id) × MayBeMailed d.contact)
    × IsFirstStep d.enrollment.campaign_id d.enrollment.current_step_position t.steps d.step
    × IsWaitedFor now d.step.delay_days d.enrollment.last_step_sent_at

is_active-lem : (s : EnrollmentState) → is_active s ≡ true → s ≡ active
is_active-lem active h = refl
is_active-lem _ h = absurd (ground arith)

status_differs-lem :
    (c : Contact) (o : Option String)
    → c.adopter_status ≡ o
    → status_differs o ≡ true
    → MayBeMailed c
status_differs-lem c none e h = absurd (ground arith)
status_differs-lem c (some s) e h =
    (s, e, λ same. let k = (=ₛ_iff s "do_not_engage").1 same in ground arith)

delay_over-lem :
    (now days : ℕ) (o : Option ℕ) → delay_over now days o ≡ true → IsWaitedFor now days o
delay_over-lem now days none h = inl refl
delay_over-lem now days (some sent) h = inr (sent, refl, ground arith)

find_contact-id : (i : ℕ) (cs : List Contact) (c : Contact) → find_contact i cs ≡ some c → c.id ≡ i
find_contact-id i [] c h = absurd (ground arith)
find_contact-id i (x ∷ cs) c h = elim (Bool-cases (x.id == i)) [
  | inl e ↦
      let same : x ≡ c = ground arith in
      subst (λ (y : Contact). y.id ≡ i) same ((==_iff x.id i).0 e)
  | inr e ↦ find_contact-id i cs c (rw e at h)
]

find_campaign-id :
    (i : ℕ) (cs : List Campaign) (c : Campaign) → find_campaign i cs ≡ some c → c.id ≡ i
find_campaign-id i [] c h = absurd (ground arith)
find_campaign-id i (x ∷ cs) c h = elim (Bool-cases (x.id == i)) [
  | inl e ↦
      let same : x ≡ c = ground arith in
      subst (λ (y : Campaign). y.id ≡ i) same ((==_iff x.id i).0 e)
  | inr e ↦ find_campaign-id i cs c (rw e at h)
]

not_before :
    (c from : ℕ) (s x : CampaignStep)
    → IsNotBefore c from s x
    → (x.campaign_id ≢ c) ⊎ (x.position < from) ⊎ (s.position ≤ x.position)
not_before c from s x h = elim (Bool-cases (x.campaign_id == c)) [
  | inr other ↦ inl (λ e. let m = (==_iff x.campaign_id c).1 e in ground arith)
  | inl same ↦ elim (Bool-cases (leb from x.position)) [
    | inr early ↦ inr (inl (ground arith))
    | inl late ↦ inr (inr (ground arith))
  ]
]

next_step-IsFirstStep :
    (c from : ℕ) (ss : List CampaignStep) (s : CampaignStep)
    → next_step c from ss ≡ some s
    → IsFirstStep c from ss s
next_step-IsFirstStep c from ss s h =
    let f = next_step-first c from ss h in
    (
      (==_iff s.campaign_id c).0 (ground (arith, f.0)),
      ground (arith, f.0),
      All-map _ _ (not_before c from s) ss f.1,
    )

IsDue-of_Passes :
    (locked : ℕ → Bool) (now : ℕ) (t : Tables) (contacts : List Contact) (d : DueStep)
    → Passes locked now t contacts d
    → IsDue locked now t contacts d
IsDue-of_Passes locked now t contacts d (free, act, camp, differs, over, next, of, in_, there) = (
  there,
  is_active-lem d.enrollment.state act,
  free,
  (find_campaign-id d.enrollment.campaign_id t.campaigns d.campaign in_, camp),
  (
    find_contact-id d.enrollment.contact_id contacts d.contact of,
    status_differs-lem d.contact d.contact.adopter_status refl differs,
  ),
  next_step-IsFirstStep d.enrollment.campaign_id d.enrollment.current_step_position t.steps d.step
      next,
  delay_over-lem now d.step.delay_days d.enrollment.last_step_sent_at over,
)

due_row-parts :
    (now : ℕ) (e : Enrollment) (campaign : Option Campaign) (step : Option CampaignStep)
    (contact : Option Contact) {d : DueStep}
    → due_row now e campaign step contact ≡ some d
    → (d.enrollment ≡ e)
      × (campaign ≡ some d.campaign)
      × (step ≡ some d.step)
      × (contact ≡ some d.contact)
      × ((is_active e.state
            && d.campaign.is_active
            && status_differs d.contact.adopter_status
            && delay_over now d.step.delay_days e.last_step_sent_at)
          ≡ true)
due_row-parts now e none step contact h = cc
due_row-parts now e (some c) none contact h = cc
due_row-parts now e (some c) (some s) none h = cc
due_row-parts now e (some c) (some s) (some k) {d} h = ground arith

module _ (P : DueStep → Type 0) where
  All-insert_by_age :
      (d : DueStep) (ds : List DueStep) → P d → All P ds → All P (insert_by_age d ds)
  All-insert_by_age d [] p h = (p, tt)
  All-insert_by_age d (x ∷ xs) p h =
      elim (Bool-cases (leb d.enrollment.enrolled_at x.enrollment.enrolled_at)) [
        | inl e ↦ rw e (p, (h.0, h.1))
        | inr e ↦ rw e (h.0, All-insert_by_age d xs p h.1)
      ]

  All-take : (n : ℕ) (ds : List DueStep) → All P ds → All P (take n ds)
  All-take zero ds h = tt
  All-take (suc n) [] h = tt
  All-take (suc n) (d ∷ ds) h = (h.0, All-take n ds h.1)

due_step-Passes :
    (locked : ℕ → Bool) (now : ℕ) (t : Tables) (contacts : List Contact) (e : Enrollment)
    {d : DueStep}
    → due_step now t contacts e ≡ some d
    → locked e.id ≡ false
    → Memᴰ e t.enrollments
    → Passes locked now t contacts d
unfolding due_step
due_step-Passes locked now t contacts e {d} h free there =
    let p =
      due_row-parts now e (find_campaign e.campaign_id t.campaigns)
        (next_step e.campaign_id e.current_step_position t.steps)
        (find_contact e.contact_id contacts) h in
    subst
      (λ (x : Enrollment).
        (locked x.id ≡ false)
        × (is_active x.state ≡ true)
        × (d.campaign.is_active ≡ true)
        × (status_differs d.contact.adopter_status ≡ true)
        × (delay_over now d.step.delay_days x.last_step_sent_at ≡ true)
        × (next_step x.campaign_id x.current_step_position t.steps ≡ some d.step)
        × (find_contact x.contact_id contacts ≡ some d.contact)
        × (find_campaign x.campaign_id t.campaigns ≡ some d.campaign)
        × Memᴰ x t.enrollments)
      (sym p.0)
      (
        free,
        ground (arith, p.4),
        ground (arith, p.4),
        ground (arith, p.4),
        ground (arith, p.4),
        p.2,
        p.3,
        p.1,
        there,
      )

due_steps-IsDue :
    (locked : ℕ → Bool) (now : ℕ) (t : Tables) (contacts : List Contact) (es : List Enrollment)
    → All (λ e. Memᴰ e t.enrollments) es
    → All (IsDue locked now t contacts) (due_steps locked now t contacts es)
unfolding due_steps
due_steps-IsDue locked now t contacts [] m = tt
due_steps-IsDue locked now t contacts (e ∷ es) m =
    let rest = due_steps-IsDue locked now t contacts es m.1 in
    elim (Option-cases (due_step now t contacts e)) [
      | inl n ↦ rw n rest
      | inr (d, n) ↦ elim (Bool-cases (locked e.id)) [
        | inl b ↦ rw (n, b) rest
        | inr b ↦
            rw (n, b)
              (All-insert_by_age (IsDue locked now t contacts) d
                (due_steps locked now t contacts es)
                (IsDue-of_Passes locked now t contacts d
                  (due_step-Passes locked now t contacts e n b m.0))
                rest)
      ]
    ]

-- Every claimed row is an active enrollment of the table that no other worker has locked, of an active
-- campaign and of a contact that has a status other than `do_not_engage`; its step is the first of the
-- campaign from the enrollment's position on; and if anything was sent before, the step's days of delay
-- are over since then.
pub claim_due_steps_lem :
    (locked : ℕ → Bool) (now limit : ℕ) (t : Tables) (contacts : List Contact)
    → All (IsDue locked now t contacts) (claim_due_steps locked now limit t contacts)
unfolding claim_due_steps
claim_due_steps_lem locked now limit t contacts =
    All-take (IsDue locked now t contacts) limit (due_steps locked now t contacts t.enrollments)
      (due_steps-IsDue locked now t contacts t.enrollments (All-Memᴰ t.enrollments))
