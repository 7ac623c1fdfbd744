-- ===== src/Etl/Merge.antt =====
-- The merge rules of reconcile/track_a_merge.py.
pub mod Fields
pub mod Names
pub mod Winner
use jp_adopt_core.Prelude.{
  ℕ, String, Bool, true, false, not, Option, none, some, List, [], ◌∷◌, ◌++◌, if◌then◌else◌, ◌=ₛ◌,
  ◌==◌, in_texts, ◌&&◌,
}
use jp_adopt_core.Text.{Text, Unicode, text_eq, strip, before}

-- A column's value: `None`, a text or a number.
pub data Value : Type 0 where
  null : Value
  text : String → Value
  number : ℕ → Value

abbrev pub value_eq : Value → Value → Bool
value_eq null null = true
value_eq (text s) (text t) = s =ₛ t
value_eq (number m) (number n) = m == n
value_eq null (text t) = false
value_eq null (number n) = false
value_eq (text s) null = false
value_eq (text s) (number n) = false
value_eq (number m) null = false
value_eq (number m) (text t) = false

-- `value in (None, "")`
abbrev pub is_blank : Value → Bool
is_blank null = true
is_blank (text s) = s =ₛ ""
is_blank (number n) = false

-- A dict of columns, in insertion order.
abbrev pub Columns : Type 0
Columns = List (String × Value)

-- `columns.get(name)`
abbrev pub get : Columns → String → Value
get [] name = null
get ((k, v) ∷ rest) name = if k =ₛ name then v else get rest name

abbrev pub has_key : Columns → String → Bool
has_key [] name = false
has_key ((k, v) ∷ rest) name = if k =ₛ name then true else has_key rest name

unfoldable pub merge_descriptive : Columns → Columns → Columns
merge_descriptive core [] = []
merge_descriptive core ((col, dt_val) ∷ rest) =
    if is_blank dt_val
    then merge_descriptive core rest
    else if not (value_eq (get core col) dt_val)
    then (col, dt_val) ∷ merge_descriptive core rest
    else merge_descriptive core rest

-- `a | b` and `a - b` of sets.
abbrev pub set_union : List String → List String → List String
set_union [] b = b
set_union (t ∷ ts) b = if in_texts t b then set_union ts b else t ∷ set_union ts b

abbrev pub set_difference : List String → List String → List String
set_difference [] b = []
set_difference (t ∷ ts) b = if in_texts t b then set_difference ts b else t ∷ set_difference ts b

pub record ConsentDecision : Type 0 where
  pub effective_optouts : List String
  pub dt_consents_to_add : List String

unfoldable pub consent_most_restrictive : List String → List String → ConsentDecision
consent_most_restrictive core_optouts dt_optouts = record {
  effective_optouts = set_union core_optouts dt_optouts;
  dt_consents_to_add = [];
}

unfoldable pub interests_to_add : List String → List String → List String
interests_to_add core_keys dt_keys = set_difference dt_keys core_keys

-- A text that is missing or empty is false in Python.
abbrev pub is_empty : Text → Bool
is_empty [] = true
is_empty (c ∷ cs) = false

-- `core_name == dt_name`
abbrev pub same_name : Option Text → Text → Bool
same_name none dt_name = false
same_name (some core_name) dt_name = text_eq core_name dt_name

module _ (u : Unicode) where
  -- `is_real_name` of a stripped name that is not empty
  abbrev pub differs_from_email : Text → Option Text → Bool
  differs_from_email stripped none = true
  differs_from_email stripped (some email) =
      if is_empty email
      then true
      else (let candidate = u.casefold stripped in
          let addr = u.casefold (strip u email) in
          if text_eq candidate addr then false else not (text_eq candidate (before b'@' addr)))

  unfoldable pub is_real_name : Option Text → Option Text → Bool
  is_real_name none email = false
  is_real_name (some name) email =
      if is_empty (strip u name) then false else differs_from_email (strip u name) email

  unfoldable pub resolve_display_name : Option Text → Option Text → Option Text → Option Text
  resolve_display_name core_name none email = none
  resolve_display_name core_name (some dt_name) email =
      if is_empty dt_name
      then none
      else if not (is_real_name (some dt_name) email) && is_real_name core_name email
      then none
      else if same_name core_name dt_name
      then none
      else some dt_name
