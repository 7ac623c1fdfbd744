-- ===== src/Etl/Status.antt =====
-- The status tables of mappers/status.py, and what the mappers can return.
pub mod Range
use jp_adopt_core.Prelude.{String, Bool, Option, none, some, List, [], ◌∷◌, if◌then◌else◌}
use jp_adopt_core.Text.{Text, Unicode, codes, text_eq, strip}

abbrev pub StatusMap : Type 0
StatusMap = List (String × String)

abbrev pub adopter_status_map : StatusMap
adopter_status_map =
    ("draft", "draft")
    ∷ ("new", "new")
    ∷ ("not_ready", "potential_adopter")
    ∷ ("do_not_engage", "do_not_engage")
    ∷ ("new_inquiry", "new")
    ∷ ("contacted", "new")
    ∷ ("engaged", "contacted")
    ∷ ("matched", "matched")
    ∷ ("active", "engaged")
    ∷ ("inactive", "do_not_engage")
    ∷ ("unassignable", "potential_adopter")
    ∷ ("closed", "do_not_engage")
    ∷ []

abbrev pub facilitator_status_map : StatusMap
facilitator_status_map =
    ("draft", "draft")
    ∷ ("new", "new")
    ∷ ("not_ready", "not_ready")
    ∷ ("ready", "ready")
    ∷ ("do_not_engage", "do_not_engage")
    ∷ ("contacted", "new")
    ∷ ("engaged", "not_ready")
    ∷ ("matched", "ready")
    ∷ ("active", "ready")
    ∷ ("inactive", "do_not_engage")
    ∷ ("unassignable", "do_not_engage")
    ∷ ("closed", "do_not_engage")
    ∷ []

abbrev pub unknown_sentinel : String
unknown_sentinel = "unknown"

pub data Mode : Type 0 where
  dry_run production : Mode

-- What a mapper does: it returns `None` or a status, or raises UnmappedStatusError.
pub data Mapping : Type 0 where
  no_status unmapped_status_error : Mapping
  status : String → Mapping

-- `MAP.get(cleaned)`
abbrev pub lookup_status : StatusMap → Text → Option String
lookup_status [] cleaned = none
lookup_status ((k, v) ∷ rest) cleaned =
    if text_eq (codes k) cleaned then some v else lookup_status rest cleaned

abbrev pub or_unknown : Mode → Option String → Mapping
or_unknown mode (some v) = status v
or_unknown dry_run none = unmapped_status_error
or_unknown production none = status unknown_sentinel

abbrev pub map_cleaned : StatusMap → Mode → Text → Mapping
map_cleaned table mode [] = no_status
map_cleaned table mode (c ∷ cs) = or_unknown mode (lookup_status table (c ∷ cs))

-- The body of both mappers, over their table.
unfoldable pub map_status : Unicode → StatusMap → Mode → Option Text → Mapping
map_status u table mode none = no_status
map_status u table mode (some source_value) =
    map_cleaned table mode (u.lower (strip u source_value))

unfoldable pub map_adopter_status : Unicode → Mode → Option Text → Mapping
unfolding map_status
map_adopter_status u = map_status u adopter_status_map

unfoldable pub map_facilitator_status : Unicode → Mode → Option Text → Mapping
unfolding map_status
map_facilitator_status u = map_status u facilitator_status_map
