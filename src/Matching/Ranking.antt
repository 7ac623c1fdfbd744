-- ===== src/Matching/Ranking.antt =====
-- Candidates, and `_sort_candidates_for_ranking`.
use jp_adopt_core.Prelude.{
  ℕ, String, Bool, true, false, not, Option, none, some, List, [], ◌∷◌, if◌then◌else◌, ltb, ◌&&◌,
  take,
}
use jp_adopt_core.Matching.Rows.{FacilitatingOrg}
use jp_adopt_core.Matching.Floats.{Floats}
use jp_adopt_core.Matching.Filter.{FilterReason}
use jp_adopt_core.Matching.Score.{Signals, zero_score}

pub record Candidate (F : Type 0) : Type 0 where
  pub facilitator : FacilitatingOrg
  pub score_vector : Option (Signals F)
  pub filter_reason : FilterReason
  pub covered : List String

-- A candidate that passed the filter, with its rounded total.
pub record Scored (F : Type 0) : Type 0 where
  pub candidate : Candidate F
  pub total : F

-- `<` of the timestamps, where `None` is -inf.
abbrev pub older : Option ℕ → Option ℕ → Bool
older a none = false
older none (some b) = true
older (some a) (some b) = ltb a b

module _ {F : Type 0} (fl : Floats F) where
  open fl use {leb}

  -- `sort_key(a) < sort_key(b)` on tuples `(-total, last_ts, str(id))`. The canonical text of a
  -- UUID has a fixed length, so the texts are ordered as the numbers.
  abbrev pub ranks_before : Scored F → Scored F → Bool
  ranks_before a b =
      let x = a.candidate.facilitator in
      let y = b.candidate.facilitator in
      if not (leb a.total b.total && leb b.total a.total)
      then not (leb a.total b.total)
      else if older x.last_assigned_at y.last_assigned_at
      then true
      else if older y.last_assigned_at x.last_assigned_at
      then false
      else ltb x.id y.id

  -- `sorted`, which is stable.
  abbrev pub insert_ranked : Scored F → List (Scored F) → List (Scored F)
  insert_ranked a [] = a ∷ []
  insert_ranked a (b ∷ bs) = if ranks_before b a then b ∷ insert_ranked a bs else a ∷ b ∷ bs

  unfoldable pub sort_candidates : List (Scored F) → List (Scored F)
  sort_candidates [] = []
  sort_candidates (a ∷ bs) = insert_ranked a (sort_candidates bs)

  -- `[… if total >= MIN_SCORE_FLOOR]`, with the floor 0.0
  abbrev pub above_floor : List (Scored F) → List (Scored F)
  above_floor [] = []
  above_floor (a ∷ bs) = if leb (zero_score fl) a.total then a ∷ above_floor bs else above_floor bs

  -- `promoted`, the first TOP_N_RECOMMENDED of the ranking.
  unfoldable pub promote : List (Scored F) → List (Scored F)
  unfolding sort_candidates
  promote scored = take 3 (above_floor (sort_candidates scored))
