-- ===== src/Drips/Advance.antt =====
-- The advance: it skips no step, and an enrollment sends finitely many.
use jp_adopt_core.Prelude.{
  ℕ, suc, ◌+◌, ◌≤◌, ◌<◌, ◌≡◌, ◌⊎◌, inl, inr, refl, Bool, true, false, not, Option, none, some, List,
  [], ◌∷◌, if◌then◌else◌, ◌==◌, leb, ◌&&◌, ◌||◌, arith, All, Option-cases, All-map, ◌↔◌,
}
use mathlib.Core.Path.{subst}
use jp_adopt_core.Drips.Rows.{
  CampaignStep, EnrollmentState, Enrollment, exit_completed, min_step, next_step,
}
use jp_adopt_core.Drips.Engine.{advance_enrollment}

-- A step of the campaign at a position or behind it.
abbrev pub is_candidate : ℕ → ℕ → CampaignStep → Bool
is_candidate campaign_id from s = s.campaign_id == campaign_id && leb from s.position

next_step-none :
    (c from : ℕ) (ss : List CampaignStep)
    → next_step c from ss ≡ none
    → All (λ x. is_candidate c from x ≡ false) ss
unfolding next_step
next_step-none c from [] h = tt
next_step-none c from (x ∷ ss) h =
    let parts : (is_candidate c from x ≡ false) × (next_step c from ss ≡ none) =
      none-parts x (next_step c from ss) h in
    (parts.0, next_step-none c from ss parts.1)
  where
    none-parts :
        (x : CampaignStep) (rest : Option CampaignStep)
        → (if is_candidate c from x then min_step (some x) rest else rest) ≡ none
        → (is_candidate c from x ≡ false) × (rest ≡ none)
    none-parts x rest h = ground arith

-- A candidate is not before a step.
abbrev pub IsNotBefore : ℕ → ℕ → CampaignStep → CampaignStep → Type 0
IsNotBefore c from s x = (not (is_candidate c from x) || leb s.position x.position) ≡ true

pub next_step-first :
    (c from : ℕ) (ss : List CampaignStep) {s : CampaignStep}
    → next_step c from ss ≡ some s
    → (is_candidate c from s ≡ true) × All (IsNotBefore c from s) ss
unfolding next_step
next_step-first c from [] h = cc
next_step-first c from (x ∷ ss) {s = s} h = elim (Option-cases (next_step c from ss)) [
  | inl e ↦
      let p : (is_candidate c from x ≡ true) × (x ≡ s) = ground arith in
      (
        subst (λ (y : CampaignStep). is_candidate c from y ≡ true) p.1 p.0,
        (
          subst (λ (y : CampaignStep). IsNotBefore c from y x) p.1 (ground arith),
          All-map (λ y. is_candidate c from y ≡ false) (IsNotBefore c from s) (λ y n. ground arith)
              ss (next_step-none c from ss e),
        ),
      )
  | inr (r, e) ↦
      let ih = next_step-first c from ss e in
      let p : (is_candidate c from s ≡ true)
          × IsNotBefore c from s x
          × (leb s.position r.position ≡ true) =
        ground (arith, ih.0) in
      (
        p.0,
        (
          p.1,
          All-map (IsNotBefore c from r) (IsNotBefore c from s) (λ y n. ground (arith, p.2)) ss
              ih.1,
        ),
      )
]

-- How many of the campaign's steps lie behind a position.
abbrev steps_after : ℕ → ℕ → List CampaignStep → ℕ
steps_after c p [] = 0
steps_after c p (s ∷ ss) = (if is_candidate c (suc p) s then 1 else 0) + steps_after c p ss

steps_after-le :
    (c p q : ℕ) (ss : List CampaignStep) → p ≤ q → steps_after c q ss ≤ steps_after c p ss
steps_after-le c p q [] h = omega arith
steps_after-le c p q (s ∷ ss) h = ground (arith, steps_after-le c p q ss)

steps_after-lt :
    (c p : ℕ) (ss : List CampaignStep) {s : CampaignStep}
    → next_step c (suc p) ss ≡ some s
    → (p < s.position) × (steps_after c s.position ss < steps_after c p ss)
unfolding next_step
steps_after-lt c p [] h = cc
steps_after-lt c p (x ∷ ss) {s = s} h = elim (Option-cases (next_step c (suc p) ss)) [
  | inl e ↦
      let q : (is_candidate c (suc p) x ≡ true) × (x ≡ s) = ground arith in
      subst
        (λ (y : CampaignStep).
          (p < y.position) × (steps_after c y.position (x ∷ ss) < steps_after c p (x ∷ ss)))
        q.1 (ground arith, ground (arith, q.0, steps_after-le c p x.position ss))
  | inr (r, e) ↦ ground (arith, steps_after-lt c p ss e, steps_after-le c p s.position ss)
]

none_after :
    (c p : ℕ) (ss : List CampaignStep)
    → All (λ x. is_candidate c (suc p) x ≡ false) ss
    → steps_after c p ss ≡ 0
none_after c p [] h = refl
none_after c p (x ∷ ss) h = rw h.0 (omega (arith, none_after c p ss h.1))

-- No step of the list stands in the campaign between two positions.
abbrev pub IsNotSkipped : ℕ → ℕ → ℕ → CampaignStep → Type 0
IsNotSkipped c p q s =
    ((s.campaign_id == c && leb (suc p) s.position) && leb (suc s.position) q) ≡ false

-- How many of the campaign's steps a tick may still claim at a position: those there or behind it.
abbrev pub steps_left : ℕ → ℕ → List CampaignStep → ℕ
steps_left c p [] = 0
steps_left c p (s ∷ ss) = (if is_candidate c p s then 1 else 0) + steps_left c p ss

-- The position is that of a step of the campaign.
abbrev pub IsAtStep : ℕ → ℕ → List CampaignStep → Type 0
IsAtStep c p [] = ⊥
IsAtStep c p (s ∷ ss) = ((s.campaign_id ≡ c) × (s.position ≡ p)) ⊎ IsAtStep c p ss

-- An enrollment does not advance exactly when no step of its campaign is left behind its position,
-- and then it is completed at the time of the send, with the position it had.
advance_completes :
    (steps : List CampaignStep) (sent_at : ℕ) (e : Enrollment)
    → ((advance_enrollment steps sent_at e).1 ≡ false
        ↔ steps_after e.campaign_id e.current_step_position steps ≡ 0)
      × (((advance_enrollment steps sent_at e).1 ≡ true)
          ⊎ ((advance_enrollment steps sent_at e).0 ≡ record e {
            last_step_sent_at = some sent_at;
            state = EnrollmentState.completed;
            exited_at = some sent_at;
            exit_reason = some exit_completed;
          }))
unfolding advance_enrollment
advance_completes steps sent_at e =
    elim (Option-cases (next_step e.campaign_id (suc e.current_step_position) steps)) [
      | inl n ↦ (
        (
          λ h.
              none_after e.campaign_id e.current_step_position steps
                (next_step-none e.campaign_id (suc e.current_step_position) steps n),
          λ h. ground arith,
        ),
        inr (ground arith),
      )
      | inr (s, n) ↦
          let lt = (steps_after-lt e.campaign_id e.current_step_position steps n).1 in
          ((λ h. ground arith, λ h. absurd (omega arith)), inl (ground arith))
    ]
