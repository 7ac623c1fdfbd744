-- ===== src/Matching/Order.antt =====
-- The ranking puts the highest total first, keeps the candidates, and honours the limit of three.
use jp_adopt_core.Prelude.{
  ℕ, zero, suc, ◌↔◌, ◌≡◌, inl, inr, refl, true, false, List, [], ◌∷◌, arith, take, Bool-cases, All,
  All-map,
}
use mathlib.Core.Path.{subst}
use jp_adopt_core.Matching.Floats.{Floats, FloatLaws}
use jp_adopt_core.Matching.Score.{zero_score}
use jp_adopt_core.Matching.Ranking.{
  Scored, ranks_before, insert_ranked, sort_candidates, above_floor, promote,
}

module _ {F : Type 0} (fl : Floats F) where
  open fl use {leb}

  All-insert :
      (P : Scored F → Type 0) (a : Scored F) (bs : List (Scored F))
      → P a
      → All P bs
      → All P (insert_ranked fl a bs)
  All-insert P a [] p h = (p, tt)
  All-insert P a (b ∷ bs) p h = elim (Bool-cases (ranks_before fl b a)) [
    | inl e ↦ rw e (h.0, All-insert P a bs p h.1)
    | inr e ↦ rw e (p, (h.0, h.1))
  ]

  All-of_insert :
      (P : Scored F → Type 0) (a : Scored F) (bs : List (Scored F))
      → All P (insert_ranked fl a bs)
      → P a × All P bs
  All-of_insert P a [] h = h
  All-of_insert P a (b ∷ bs) h = elim (Bool-cases (ranks_before fl b a)) [
    | inl e ↦
        let k : P b × All P (insert_ranked fl a bs) = (rw e at h) in
        let r = All-of_insert P a bs k.1 in (r.0, (k.0, r.1))
    | inr e ↦ let k : P a × (P b × All P bs) = (rw e at h) in k
  ]

  pub All-sort :
      (P : Scored F → Type 0) (bs : List (Scored F)) → All P (sort_candidates fl bs) ↔ All P bs
  unfolding sort_candidates
  All-sort P [] = (λ h. h, λ h. h)
  All-sort P (b ∷ bs) = (
    (λ h. let r = All-of_insert P b (sort_candidates fl bs) h in (r.0, (All-sort P bs).0 r.1)),
    (λ h. All-insert P b (sort_candidates fl bs) h.0 ((All-sort P bs).1 h.1)),
  )

  All-above_floor :
      (P : Scored F → Type 0) (bs : List (Scored F)) → All P bs → All P (above_floor fl bs)
  All-above_floor P [] h = h
  All-above_floor P (b ∷ bs) h = elim (Bool-cases (leb (zero_score fl) b.total)) [
    | inl e ↦ rw e (h.0, All-above_floor P bs h.1)
    | inr e ↦ rw e (All-above_floor P bs h.1)
  ]

  All-take : (P : Scored F → Type 0) (n : ℕ) (bs : List (Scored F)) → All P bs → All P (take n bs)
  All-take P zero bs h = tt
  All-take P (suc n) [] h = tt
  All-take P (suc n) (b ∷ bs) h = (h.0, All-take P n bs h.1)

  -- What holds of every scored candidate holds of the promoted ones.
  pub promote-All :
      (P : Scored F → Type 0) (bs : List (Scored F)) → All P bs → All P (promote fl bs)
  unfolding promote
  promote-All P bs h =
      All-take P 3 (above_floor fl (sort_candidates fl bs))
        (All-above_floor P (sort_candidates fl bs) ((All-sort P bs).1 h))

module _ {F : Type 0} (fl : Floats F) (laws : FloatLaws fl) where
  open fl use {leb}

  -- The totals fall from left to right.
  abbrev pub Falls : List (Scored F) → Type 0
  Falls [] = Unit
  Falls (a ∷ bs) = All (λ b. leb b.total a.total ≡ true) bs × Falls bs

  ranks_before-leb : (a b : Scored F) → ranks_before fl a b ≡ true → leb b.total a.total ≡ true
  ranks_before-leb a b h = ground (arith, laws.leb_total a.total b.total)

  not_before-leb : (a b : Scored F) → ranks_before fl a b ≡ false → leb a.total b.total ≡ true
  not_before-leb a b h = ground (arith, laws.leb_total a.total b.total)

  insert-Falls : (a : Scored F) (bs : List (Scored F)) → Falls bs → Falls (insert_ranked fl a bs)
  insert-Falls a [] h = (tt, tt)
  insert-Falls a (b ∷ bs) h = elim (Bool-cases (ranks_before fl b a)) [
    | inl e ↦ rw e (
      All-insert fl (λ x. leb x.total b.total ≡ true) a bs (ranks_before-leb b a e) h.0,
      insert-Falls a bs h.1,
    )
    | inr e ↦ rw e (
      (
        not_before-leb b a e,
        All-map (λ x. leb x.total b.total ≡ true) (λ x. leb x.total a.total ≡ true)
            (λ x p. laws.leb_trans x.total b.total a.total p (not_before-leb b a e)) bs h.0,
      ),
      h,
    )
  ]

  sort-Falls : (bs : List (Scored F)) → Falls (sort_candidates fl bs)
  unfolding sort_candidates
  sort-Falls [] = tt
  sort-Falls (b ∷ bs) = insert-Falls b (sort_candidates fl bs) (sort-Falls bs)

  nothing_above_floor :
      (a : Scored F) (bs : List (Scored F))
      → leb (zero_score fl) a.total ≡ false
      → All (λ b. leb b.total a.total ≡ true) bs
      → above_floor fl bs ≡ []
  nothing_above_floor a [] e h = refl
  nothing_above_floor a (b ∷ bs) e h =
      ground
        (arith, nothing_above_floor a bs e h.1, laws.leb_trans (zero_score fl) b.total a.total, h.0)

  top_of_falling :
      (bs : List (Scored F)) {top : Scored F} {rest : List (Scored F)}
      → Falls bs
      → take 3 (above_floor fl bs) ≡ top ∷ rest
      → All (λ b. leb b.total top.total ≡ true) bs
  top_of_falling [] h e = tt
  top_of_falling (b ∷ bs) {top = top} h e = elim (Bool-cases (leb (zero_score fl) b.total)) [
    | inl p ↦
        let same : b ≡ top = ground arith in
        subst (λ (t : Scored F). All (λ x. leb x.total t.total ≡ true) (b ∷ bs)) same
          (leb_refl b, h.0)
    | inr p ↦ absurd (ground (arith, nothing_above_floor b bs p h.0))
  ]
    where
      leb_refl : (x : Scored F) → leb x.total x.total ≡ true
      leb_refl x = ground (arith, laws.leb_total x.total x.total)

  -- The first promoted candidate has the highest total of all scored candidates.
  promote_first_is_best :
      (bs : List (Scored F)) {top : Scored F} {rest : List (Scored F)}
      → promote fl bs ≡ top ∷ rest
      → All (λ b. leb b.total top.total ≡ true) bs
  unfolding promote
  promote_first_is_best bs {top = top} e =
      (All-sort fl (λ b. leb b.total top.total ≡ true) bs).0
        (top_of_falling (sort_candidates fl bs) (sort-Falls bs) e)
