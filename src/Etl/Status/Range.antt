-- ===== src/Etl/Status/Range.antt =====
-- The mappers' results: states that the contacts table admits, or the sentinel.
use jp_adopt_core.Prelude.{
  String, ◌≡◌, ◌⊎◌, inl, inr, refl, Option, none, some, [], ◌∷◌, arith, All, Bool-cases,
}
use mathlib.Core.Path.{subst}
use jp_adopt_core.Text.{Text, Unicode, codes, text_eq, strip}
use jp_adopt_core.Workflow.States.{AdopterState, FacilitatorState, adopter_value, facilitator_value}
use jp_adopt_core.Etl.Status.{
  StatusMap, adopter_status_map, facilitator_status_map, unknown_sentinel, Mode, dry_run,
  production, unmapped_status_error, status, lookup_status, or_unknown, map_cleaned, map_status,
  map_adopter_status, map_facilitator_status,
}

lookup_status-All :
    (P : String → Type 0) (table : StatusMap) (t : Text) {v : String}
    → All (λ (k, w). P w) table
    → lookup_status table t ≡ some v
    → P v
lookup_status-All P [] t h e = cc
lookup_status-All P ((k, w) ∷ rest) t {v} h e = elim (Bool-cases (text_eq (codes k) t)) [
  | inl y ↦ let same : w ≡ v = ground arith in subst P same h.0
  | inr n ↦ lookup_status-All P rest t h.1 (rw n at e)
]

-- What a mapper returns satisfies a predicate that every entry of its table satisfies, or is the
-- sentinel in production mode.
map_status-All :
    (u : Unicode) (P : String → Type 0) (table : StatusMap) (mode : Mode) (source : Option Text)
    {v : String}
    → All (λ (k, w). P w) table
    → map_status u table mode source ≡ status v
    → P v ⊎ ((mode ≡ production) × (v ≡ unknown_sentinel))
unfolding map_status
map_status-All u P table mode none h e = cc
map_status-All u P table mode (some source) {v} h e = by_cleaned (u.lower (strip u source)) e
  where
    by_lookup :
        (m : Mode) (o : Option String)
        → ((w : String) → o ≡ some w → P w)
        → or_unknown m o ≡ status v
        → P v ⊎ ((m ≡ production) × (v ≡ unknown_sentinel))
    by_lookup m (some w) f e = inl (f v (cc))
    by_lookup dry_run none f e = cc
    by_lookup production none f e = inr (refl, cc)

    by_cleaned :
        (t : Text)
        → map_cleaned table mode t ≡ status v
        → P v ⊎ ((mode ≡ production) × (v ≡ unknown_sentinel))
    by_cleaned [] e = cc
    by_cleaned (c ∷ cs) e =
        by_lookup mode (lookup_status table (c ∷ cs))
          (λ w f. lookup_status-All P table (c ∷ cs) h f) e

abbrev pub IsAdopterStatus : String → Type 0
IsAdopterStatus v = (s : AdopterState) × (v ≡ adopter_value s)

abbrev pub IsFacilitatorStatus : String → Type 0
IsFacilitatorStatus v = (s : FacilitatorState) × (v ≡ facilitator_value s)

adopter_map_in_range : All (λ (k, w). IsAdopterStatus w) adopter_status_map
adopter_map_in_range = (
  (AdopterState.draft, refl),
  (
    (AdopterState.new, refl),
    (
      (AdopterState.potential_adopter, refl),
      (
        (AdopterState.do_not_engage, refl),
        (
          (AdopterState.new, refl),
          (
            (AdopterState.new, refl),
            (
              (AdopterState.contacted, refl),
              (
                (AdopterState.matched, refl),
                (
                  (AdopterState.engaged, refl),
                  (
                    (AdopterState.do_not_engage, refl),
                    (
                      (AdopterState.potential_adopter, refl),
                      ((AdopterState.do_not_engage, refl), tt),
                    ),
                  ),
                ),
              ),
            ),
          ),
        ),
      ),
    ),
  ),
)

facilitator_map_in_range : All (λ (k, w). IsFacilitatorStatus w) facilitator_status_map
facilitator_map_in_range = (
  (FacilitatorState.draft, refl),
  (
    (FacilitatorState.new, refl),
    (
      (FacilitatorState.not_ready, refl),
      (
        (FacilitatorState.ready, refl),
        (
          (FacilitatorState.do_not_engage, refl),
          (
            (FacilitatorState.new, refl),
            (
              (FacilitatorState.not_ready, refl),
              (
                (FacilitatorState.ready, refl),
                (
                  (FacilitatorState.ready, refl),
                  (
                    (FacilitatorState.do_not_engage, refl),
                    (
                      (FacilitatorState.do_not_engage, refl),
                      ((FacilitatorState.do_not_engage, refl), tt),
                    ),
                  ),
                ),
              ),
            ),
          ),
        ),
      ),
    ),
  ),
)

-- A status that the adopter mapper returns is a value of `AdopterState`, which the contacts table
-- admits, or the run is in production mode and it is the sentinel.
map_adopter_status_range :
    (u : Unicode) (mode : Mode) (source : Option Text) {v : String}
    → map_adopter_status u mode source ≡ status v
    → IsAdopterStatus v ⊎ ((mode ≡ production) × (v ≡ unknown_sentinel))
unfolding map_adopter_status
map_adopter_status_range u mode source e =
    map_status-All u IsAdopterStatus adopter_status_map mode source adopter_map_in_range e

-- A status that the facilitator mapper returns is a value of `FacilitatorState`, which the contacts
-- table admits, or the run is in production mode and it is the sentinel.
map_facilitator_status_range :
    (u : Unicode) (mode : Mode) (source : Option Text) {v : String}
    → map_facilitator_status u mode source ≡ status v
    → IsFacilitatorStatus v ⊎ ((mode ≡ production) × (v ≡ unknown_sentinel))
unfolding map_facilitator_status
map_facilitator_status_range u mode source e =
    map_status-All u IsFacilitatorStatus facilitator_status_map mode source facilitator_map_in_range
      e

or_unknown_modes :
    (o : Option String)
    → ((or_unknown dry_run o ≡ unmapped_status_error)
        × (or_unknown production o ≡ status unknown_sentinel))
      ⊎ (or_unknown dry_run o ≡ or_unknown production o)
or_unknown_modes none = inl (refl, refl)
or_unknown_modes (some v) = inr refl

map_cleaned_modes :
    (table : StatusMap) (t : Text)
    → ((map_cleaned table dry_run t ≡ unmapped_status_error)
        × (map_cleaned table production t ≡ status unknown_sentinel))
      ⊎ (map_cleaned table dry_run t ≡ map_cleaned table production t)
map_cleaned_modes table [] = inr refl
map_cleaned_modes table (c ∷ cs) = or_unknown_modes (lookup_status table (c ∷ cs))

-- A dry run raises exactly where production stores the sentinel; wherever it does not raise, the two
-- modes return the same.
dry_run_predicts_production :
    (u : Unicode) (table : StatusMap) (source : Option Text)
    → ((map_status u table dry_run source ≡ unmapped_status_error)
        × (map_status u table production source ≡ status unknown_sentinel))
      ⊎ (map_status u table dry_run source ≡ map_status u table production source)
unfolding map_status
dry_run_predicts_production u table none = inr refl
dry_run_predicts_production u table (some source) =
    map_cleaned_modes table (u.lower (strip u source))
