-- ===== src/Tests/Etl.antt =====
-- The merge rules and the status mappers on concrete records.
use jp_adopt_core.Prelude.{
  ℕ, ◌+◌, map, ◌≡◌, refl, Option, none, some, List, [], ◌∷◌, ◌&&◌, ◌==◌, All, leb, if◌then◌else◌,
}
use mathlib.Core.List.{Memᴰ}
use jp_adopt_core.Text.{Text, Unicode, codes, strip}
use jp_adopt_core.Etl.Merge.{text, Columns, is_real_name, resolve_display_name}
use jp_adopt_core.Etl.Merge.Winner.{DupCandidate, pick_winner, RanksFirst, pick_winner_best}
use jp_adopt_core.Etl.Status.{
  map_status, map_adopter_status, map_facilitator_status, dry_run, production, status,
}

-- The ASCII part of the Unicode tables.
abbrev lower_code : ℕ → ℕ
lower_code c = if leb 65 c && leb c 90 then c + 32 else c

abbrev ascii : Unicode
ascii = record { is_space = λ c. c == 32; lower = map lower_code; casefold = map lower_code }

abbrev core_row : Columns
core_row = ("city", text "Utrecht") ∷ ("phone", text "1") ∷ []

abbrev dt_row : Columns
dt_row = ("city", text "") ∷ ("phone", text "2") ∷ []

abbrev email : Option Text
email = some (codes "ada@example.org")

real_name_set :
    resolve_display_name ascii (some (codes "ada")) (some (codes "Ada L")) email
    ≡ some (codes "Ada L")
unfolding resolve_display_name is_real_name strip
real_name_set = refl

abbrev duplicate : Text → Option Text → ℕ → DupCandidate
duplicate source_id name filled = record {
  source_id = source_id;
  name = name;
  email = email;
  filled = filled;
  created = codes "2024-01-01";
}

abbrev cluster : List DupCandidate
cluster =
    duplicate (codes "12") (some (codes "ada")) 9
    ∷ duplicate (codes "30") (some (codes "Ada L")) 4
    ∷ []

-- The named record wins although the other has more fields.
winner_is_named :
    pick_winner ascii (duplicate (codes "9") none 9 ∷ cluster)
    ≡ some (duplicate (codes "30") (some (codes "Ada L")) 4)
unfolding pick_winner is_real_name strip
winner_is_named = refl

pick_winner_best_example :
    (w : DupCandidate) × (pick_winner ascii (duplicate (codes "9") none 9 ∷ cluster) ≡ some w)
    × Memᴰ w (duplicate (codes "9") none 9 ∷ cluster)
    × All (RanksFirst ascii w) (duplicate (codes "9") none 9 ∷ cluster)
pick_winner_best_example = pick_winner_best ascii (duplicate (codes "9") none 9) cluster

engaged_maps : map_adopter_status ascii dry_run (some (codes " Active ")) ≡ status "engaged"
unfolding map_adopter_status map_status strip
engaged_maps = refl

ready_maps : map_facilitator_status ascii production (some (codes "matched")) ≡ status "ready"
unfolding map_facilitator_status map_status strip
ready_maps = refl
