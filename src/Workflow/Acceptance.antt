-- ===== src/Workflow/Acceptance.antt =====
-- When a transition is accepted; a refused one writes nothing.
use jp_adopt_core.Prelude.{
  String, ◌≡◌, ◌↔◌, true, false, Option, none, some, List, arith, in_texts, Option-cases, inl, inr,
}
use jp_adopt_core.Workflow.States.{ReasonCode, find_by_value, in_reasons}
use jp_adopt_core.Workflow.Tables.{TransitionSpec}
use jp_adopt_core.Workflow.Lookup.{Side, lookup_spec}
use jp_adopt_core.Workflow.Transition.{
  TransitionError, ok, err, World, Request, select_version, write_transition, transition_generic,
}

abbrev pub IsCodeAllowed : ReasonCode → Option (List ReasonCode) → Type 0
IsCodeAllowed code none = Unit
IsCodeAllowed code (some codes) = in_reasons code codes ≡ true

-- The reason given satisfies the spec.
abbrev pub IsReasonValid : TransitionSpec → Option ReasonCode → Type 0
IsReasonValid spec none = spec.requires_reason ≡ false
IsReasonValid spec (some code) = IsCodeAllowed code spec.reason_codes

module _ {S : Type 0} (side : Side S) where
  -- The state that a persisted status stands for.
  abbrev pub status_state : Option String → Option S
  status_state none = some side.draft_state
  status_state (some text) = find_by_value side.value side.members text

  -- What a transition needs, each demand by itself.
  abbrev pub IsAcceptable : Request S → World → Type 0
  IsAcceptable q w =
      (frm : S) × (spec : TransitionSpec) × (status_state (side.get_status w.contact) ≡ some frm)
      × (lookup_spec side frm q.to_state ≡ some spec)
      × (in_texts q.actor_role spec.allowed_roles ≡ true)
      × IsReasonValid spec q.reason_code
      × (select_version w.contact.id w.session.contacts ≡ some w.contact.version)

  pub accepted_run :
      (q : Request S) (w : World) (a : IsAcceptable q w)
      → transition_generic side q w ≡ write_transition side a.1 a.0 q w
  unfolding transition_generic
  accepted_run q w a = ground arith

  pub accepted_has_parts :
      (q : Request S) (w : World) → (transition_generic side q w).0 ≡ ok tt → IsAcceptable q w
  unfolding transition_generic
  accepted_has_parts q w h = elim (Option-cases (status_state (side.get_status w.contact))) [
    | inl e ↦ absurd (ground arith)
    | inr (frm, e) ↦ elim (Option-cases (lookup_spec side frm q.to_state)) [
      | inl f ↦ absurd (ground arith)
      | inr (spec, f) ↦ (frm, spec, e, f, ground arith, ground arith, ground arith)
    ]
  ]

  -- A transition is accepted exactly when the persisted status stands for a state, the lookup from
  -- that state finds a spec, the spec allows the actor's role and the reason given, and the row's
  -- version is the object's.
  pub transition_accepts :
      (q : Request S) (w : World) → ((transition_generic side q w).0 ≡ ok tt) ↔ IsAcceptable q w
  unfolding write_transition
  transition_accepts q w = (accepted_has_parts q w, λ a. rw (accepted_run q w a))

  -- A transition that raises, whatever the exception, leaves the session and the contact object as
  -- they were.
  rejected_unchanged :
      (q : Request S) (w : World) {e : TransitionError}
      → (transition_generic side q w).0 ≡ err e
      → (transition_generic side q w).1 ≡ w
  unfolding transition_generic
  rejected_unchanged q w h = ground arith
