-- ===== src/Workflow/States.antt =====
-- The state enums of state_machine.py, and their persisted texts.
use jp_adopt_core.Prelude.{
  ℕ, String, ◌≡◌, refl, Bool, true, Option, none, some, List, [], ◌∷◌, if◌then◌else◌, ◌=ₛ◌, ◌==◌,
  arith, false,
}

pub data AdopterState : Type 0 where
  draft new potential_adopter contacted engaged matched sent_back active inactive do_not_engage :
      AdopterState

pub data FacilitatorState : Type 0 where
  draft new not_ready ready do_not_engage : FacilitatorState

pub data ReasonCode : Type 0 where
  capacity_full geography_mismatch language theological_concern not_ready other : ReasonCode

-- The value of each member, as the CHECK constraints spell it.
abbrev pub adopter_value : AdopterState → String
adopter_value AdopterState.draft = "draft"
adopter_value AdopterState.new = "new"
adopter_value AdopterState.potential_adopter = "potential_adopter"
adopter_value AdopterState.contacted = "contacted"
adopter_value AdopterState.engaged = "engaged"
adopter_value AdopterState.matched = "matched"
adopter_value AdopterState.sent_back = "sent_back"
adopter_value AdopterState.active = "active"
adopter_value AdopterState.inactive = "inactive"
adopter_value AdopterState.do_not_engage = "do_not_engage"

abbrev pub facilitator_value : FacilitatorState → String
facilitator_value FacilitatorState.draft = "draft"
facilitator_value FacilitatorState.new = "new"
facilitator_value FacilitatorState.not_ready = "not_ready"
facilitator_value FacilitatorState.ready = "ready"
facilitator_value FacilitatorState.do_not_engage = "do_not_engage"

abbrev pub reason_value : ReasonCode → String
reason_value ReasonCode.capacity_full = "capacity_full"
reason_value ReasonCode.geography_mismatch = "geography_mismatch"
reason_value ReasonCode.language = "language"
reason_value ReasonCode.theological_concern = "theological_concern"
reason_value ReasonCode.not_ready = "not_ready"
reason_value ReasonCode.other = "other"

-- `list(AdopterState)`: the members in declaration order.
abbrev pub adopter_states : List AdopterState
adopter_states =
    AdopterState.draft ∷ AdopterState.new ∷ AdopterState.potential_adopter ∷ AdopterState.contacted
    ∷ AdopterState.engaged ∷ AdopterState.matched ∷ AdopterState.sent_back ∷ AdopterState.active
    ∷ AdopterState.inactive ∷ AdopterState.do_not_engage ∷ []

abbrev pub facilitator_states : List FacilitatorState
facilitator_states =
    FacilitatorState.draft ∷ FacilitatorState.new ∷ FacilitatorState.not_ready
    ∷ FacilitatorState.ready ∷ FacilitatorState.do_not_engage ∷ []

-- The place in declaration order, `list(AdopterState).index(s)`. Members are equal when it is.
abbrev pub adopter_index : AdopterState → ℕ
adopter_index AdopterState.draft = 0
adopter_index AdopterState.new = 1
adopter_index AdopterState.potential_adopter = 2
adopter_index AdopterState.contacted = 3
adopter_index AdopterState.engaged = 4
adopter_index AdopterState.matched = 5
adopter_index AdopterState.sent_back = 6
adopter_index AdopterState.active = 7
adopter_index AdopterState.inactive = 8
adopter_index AdopterState.do_not_engage = 9

abbrev pub facilitator_index : FacilitatorState → ℕ
facilitator_index FacilitatorState.draft = 0
facilitator_index FacilitatorState.new = 1
facilitator_index FacilitatorState.not_ready = 2
facilitator_index FacilitatorState.ready = 3
facilitator_index FacilitatorState.do_not_engage = 4

abbrev pub reason_index : ReasonCode → ℕ
reason_index ReasonCode.capacity_full = 0
reason_index ReasonCode.geography_mismatch = 1
reason_index ReasonCode.language = 2
reason_index ReasonCode.theological_concern = 3
reason_index ReasonCode.not_ready = 4
reason_index ReasonCode.other = 5

-- `state_enum(text)`: the member whose value is the text; `none` is the ValueError.
abbrev pub find_by_value : {S : Type 0} → (S → String) → List S → String → Option S
find_by_value value [] text = none
find_by_value value (s ∷ ss) text = if value s =ₛ text then some s else find_by_value value ss text

-- `reason_code in reason_codes`
abbrev pub in_reasons : ReasonCode → List ReasonCode → Bool
in_reasons c [] = false
in_reasons c (d ∷ ds) = if reason_index c == reason_index d then true else in_reasons c ds

pub adopter_value_roundtrip :
    (s : AdopterState) → find_by_value adopter_value adopter_states (adopter_value s) ≡ some s
adopter_value_roundtrip AdopterState.draft = refl
adopter_value_roundtrip _ = refl

pub facilitator_value_roundtrip :
    (s : FacilitatorState)
    → find_by_value facilitator_value facilitator_states (facilitator_value s) ≡ some s
facilitator_value_roundtrip FacilitatorState.draft = refl
facilitator_value_roundtrip _ = refl

pub adopter_index_injective :
    (s t : AdopterState) → adopter_index s == adopter_index t ≡ true → s ≡ t
adopter_index_injective s t h = ground arith

pub facilitator_index_injective :
    (s t : FacilitatorState) → facilitator_index s == facilitator_index t ≡ true → s ≡ t
facilitator_index_injective s t h = ground arith
