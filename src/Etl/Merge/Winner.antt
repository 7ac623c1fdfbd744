-- ===== src/Etl/Merge/Winner.antt =====
-- `pick_winner`: the contact to keep from a cluster of duplicates.
use jp_adopt_core.Prelude.{
  ℕ, ◌≡◌, refl, Bool, true, false, not, Option, none, some, List, [], ◌∷◌, if◌then◌else◌, ◌==◌, ltb,
  arith, All, All-if, All-map, All-Memᴰ, ◌||◌, ◌∙◌, ap, Bool-cases, inl, inr, sym, ◌⊎◌, ◌<◌,
}
use mathlib.Core.List.{Memᴰ}
use mathlib.Core.Path.{subst}
use jp_adopt_core.Text.{Text, Unicode, text_lt, text_lt_asym, text_lt_negtrans, text_lt_irrefl}
use jp_adopt_core.Etl.Merge.{is_real_name}

-- One of the dicts that are passed in; a missing `source_id` or `created` reads as "", a missing
-- `filled` as 0.
pub record DupCandidate : Type 0 where
  pub source_id : Text
  pub name : Option Text
  pub email : Option Text
  pub filled : ℕ
  pub created : Text

-- `sorted(items, key=…)` for a `<` on the keys. It is stable.
module _ (lt : DupCandidate → DupCandidate → Bool) where
  abbrev pub insert_by : DupCandidate → List DupCandidate → List DupCandidate
  insert_by a [] = a ∷ []
  insert_by a (b ∷ bs) = if lt b a then b ∷ insert_by a bs else a ∷ b ∷ bs

  unfoldable pub sort_by : List DupCandidate → List DupCandidate
  sort_by [] = []
  sort_by (a ∷ bs) = insert_by a (sort_by bs)

abbrev pub id_lt : DupCandidate → DupCandidate → Bool
id_lt a b = text_lt a.source_id b.source_id

-- `<` on the pairs `(-filled, _DescStr(created))`
abbrev pub fuller : DupCandidate → DupCandidate → Bool
fuller a b = if a.filled == b.filled then text_lt b.created a.created else ltb b.filled a.filled

abbrev pub head? : List DupCandidate → Option DupCandidate
head? [] = none
head? (c ∷ cs) = some c

module _ (lt : DupCandidate → DupCandidate → Bool) where
  All-insert :
      (P : DupCandidate → Type 0) (a : DupCandidate) (bs : List DupCandidate)
      → P a
      → All P bs
      → All P (insert_by lt a bs)
  All-insert P a [] p h = (p, tt)
  All-insert P a (b ∷ bs) p h =
      All-if P (lt b a) (b ∷ insert_by lt a bs) (a ∷ b ∷ bs) (λ e. (h.0, All-insert P a bs p h.1))
        (λ e. (p, h))

  All-of_insert :
      (P : DupCandidate → Type 0) (a : DupCandidate) (bs : List DupCandidate)
      → All P (insert_by lt a bs)
      → P a × All P bs
  All-of_insert P a [] h = h
  All-of_insert P a (b ∷ bs) h = elim (Bool-cases (lt b a)) [
    | inl e ↦
        let k : P b × All P (insert_by lt a bs) = (rw e at h) in
        let r = All-of_insert P a bs k.1 in (r.0, (k.0, r.1))
    | inr e ↦ let k : P a × (P b × All P bs) = (rw e at h) in k
  ]

  All-sort : (P : DupCandidate → Type 0) (bs : List DupCandidate) → All P bs → All P (sort_by lt bs)
  unfolding sort_by
  All-sort P [] h = h
  All-sort P (b ∷ bs) h = All-insert P b (sort_by lt bs) h.0 (All-sort P bs h.1)

  All-of_sort :
      (P : DupCandidate → Type 0) (bs : List DupCandidate) → All P (sort_by lt bs) → All P bs
  unfolding sort_by
  All-of_sort P [] h = h
  All-of_sort P (b ∷ bs) h =
      let r = All-of_insert P b (sort_by lt bs) h in (r.0, All-of_sort P bs r.1)

  -- The head of a list that an element was inserted into.
  abbrev chosen : DupCandidate → Option DupCandidate → DupCandidate
  chosen a none = a
  chosen a (some h) = if lt h a then h else a

  head?-insert :
      (a : DupCandidate) (bs : List DupCandidate)
      → head? (insert_by lt a bs) ≡ some (chosen a (head? bs))
  head?-insert a [] = refl
  head?-insert a (b ∷ bs) = ground arith

-- No element is smaller than one before it.
abbrev IsAscending : List DupCandidate → Type 0
IsAscending [] = Unit
IsAscending (c ∷ cs) = All (λ d. id_lt d c ≡ false) cs × IsAscending cs

insert-IsAscending :
    (a : DupCandidate) (bs : List DupCandidate)
    → IsAscending bs
    → IsAscending (insert_by id_lt a bs)
insert-IsAscending a [] h = (tt, tt)
insert-IsAscending a (b ∷ bs) h = elim (Bool-cases (id_lt b a)) [
  | inl e ↦ rw e (
    All-insert id_lt (λ d. id_lt d b ≡ false) a bs (text_lt_asym b.source_id a.source_id e) h.0,
    insert-IsAscending a bs h.1,
  )
  | inr e ↦ rw e (
    (
      e,
      All-map (λ d. id_lt d b ≡ false) (λ d. id_lt d a ≡ false)
          (λ d k. text_lt_negtrans d.source_id b.source_id a.source_id k e) bs h.0,
    ),
    h,
  )
]

sort-IsAscending : (bs : List DupCandidate) → IsAscending (sort_by id_lt bs)
unfolding sort_by
sort-IsAscending [] = tt
sort-IsAscending (b ∷ bs) = insert-IsAscending b (sort_by id_lt bs) (sort-IsAscending bs)

module _ (u : Unicode) where
  abbrev pub is_named : DupCandidate → Bool
  is_named c = is_real_name u c.name c.email

  -- `<` on the keys `(not is_real_name, -filled, _DescStr(created))`
  abbrev pub rank_lt : DupCandidate → DupCandidate → Bool
  rank_lt a b =
      if is_named a
      then (if is_named b then fuller a b else true)
      else (if is_named b then false else fuller a b)

  -- `ranked[0]`; Python raises an IndexError on an empty list.
  unfoldable pub pick_winner : List DupCandidate → Option DupCandidate
  unfolding sort_by
  pick_winner candidates = head? (sort_by rank_lt (sort_by id_lt candidates))

  rank_lt_negtrans :
      (a b c : DupCandidate) → rank_lt a b ≡ false → rank_lt b c ≡ false → rank_lt a c ≡ false
  rank_lt_negtrans a b c h k = ground (
    arith,
    text_lt_negtrans c.created b.created a.created,
    text_lt_negtrans b.created c.created a.created,
  )

  rank_lt_asym : (a b : DupCandidate) → rank_lt a b ≡ true → rank_lt b a ≡ false
  rank_lt_asym a b h = ground (arith, text_lt_asym b.created a.created)

  -- The winner is not beaten, and among equals none has a smaller `source_id`.
  abbrev Beats : DupCandidate → DupCandidate → Type 0
  Beats w c = (rank_lt c w ≡ false) × ((rank_lt w c || not (id_lt c w)) ≡ true)

  Beats-self : (w : DupCandidate) → Beats w w
  Beats-self w = ground (arith, text_lt_irrefl w.source_id, text_lt_irrefl w.created)

  All-later :
      (y h : DupCandidate) (ds : List DupCandidate)
      → rank_lt h y ≡ false
      → All (λ d. id_lt d y ≡ false) ds
      → All (Beats h) ds
      → All (Beats y) ds
  All-later y h [] e l b = tt
  All-later y h (d ∷ ds) e l b =
      ((rank_lt_negtrans d h y b.0.0 e, ground arith), All-later y h ds e l.1 b.1)

  keeps_or_takes :
      (x h : DupCandidate) (cs : List DupCandidate) (b : Bool)
      → rank_lt h x ≡ b
      → All (λ d. id_lt d x ≡ false) cs
      → All (Beats h) cs
      → All (Beats (if b then h else x)) (x ∷ cs)
  keeps_or_takes x h cs true e low best = ((rank_lt_asym h x e, rw e), best)
  keeps_or_takes x h cs false e low best = (Beats-self x, All-later x h cs e low best)

  best_of_ascending :
      (x : DupCandidate) (cs : List DupCandidate)
      → IsAscending (x ∷ cs)
      → (w : DupCandidate) × (head? (sort_by rank_lt (x ∷ cs)) ≡ some w) × All (Beats w) (x ∷ cs)
  unfolding sort_by
  best_of_ascending x [] h = (x, refl, (Beats-self x, tt))
  best_of_ascending x (y ∷ ys) h =
      let (b, e, best) = best_of_ascending y ys h.1 in
      (
        chosen rank_lt x (some b),
        head?-insert rank_lt x (sort_by rank_lt (y ∷ ys))
            ∙ ap (λ (o : Option DupCandidate). some (chosen rank_lt x o)) e,
        keeps_or_takes x b (y ∷ ys) (rank_lt b x) refl h.0 best,
      )

  best_of_list :
      (l : List DupCandidate) {a : DupCandidate}
      → head? l ≡ some a
      → IsAscending l
      → (w : DupCandidate) × (head? (sort_by rank_lt l) ≡ some w) × All (Beats w) l
  best_of_list [] e h = cc
  best_of_list (x ∷ cs) e h = best_of_ascending x cs h

  head?-All :
      (P : DupCandidate → Type 0) (l : List DupCandidate) {w : DupCandidate}
      → head? l ≡ some w
      → All P l
      → P w
  head?-All P [] e h = cc
  head?-All P (x ∷ l) {w} e h = subst P (cc) h.0

  -- The documented ranking, best first: a real name, more fields filled, a newer date, and a smaller
  -- `source_id`.
  abbrev pub RanksFirst : DupCandidate → DupCandidate → Type 0
  RanksFirst w c =
      ((is_real_name u w.name w.email ≡ true) × (is_real_name u c.name c.email ≡ false))
      ⊎ ((is_real_name u w.name w.email ≡ is_real_name u c.name c.email)
          × ((c.filled < w.filled)
              ⊎ ((c.filled ≡ w.filled)
                  × ((text_lt c.created w.created ≡ true)
                      ⊎ ((text_lt w.created c.created ≡ false)
                          × (text_lt c.created w.created ≡ false)
                          × (text_lt c.source_id w.source_id ≡ false))))))

  fuller_cases :
      (w c : DupCandidate)
      → fuller c w ≡ false
      → ((fuller w c || not (id_lt c w)) ≡ true)
      → (c.filled < w.filled)
        ⊎ ((c.filled ≡ w.filled)
            × ((text_lt c.created w.created ≡ true)
                ⊎ ((text_lt w.created c.created ≡ false)
                    × (text_lt c.created w.created ≡ false)
                    × (text_lt c.source_id w.source_id ≡ false))))
  fuller_cases w c h k = elim (Bool-cases (c.filled == w.filled)) [
    | inr other ↦ inl (ground arith)
    | inl same ↦ elim (Bool-cases (text_lt c.created w.created)) [
      | inl newer ↦ inr (ground arith, inl newer)
      | inr old ↦ inr (ground arith, inr (ground arith, old, ground arith))
    ]
  ]

  RanksFirst-of_Beats : (w c : DupCandidate) → Beats w c → RanksFirst w c
  RanksFirst-of_Beats w c h = elim (Bool-cases (is_named w)) [
    | inl a ↦ elim (Bool-cases (is_named c)) [
      | inl b ↦ inr (a ∙ sym b, fuller_cases w c (rw (a, b) at h.0) (rw (a, b) at h.1))
      | inr b ↦ inl (a, b)
    ]
    | inr a ↦ elim (Bool-cases (is_named c)) [
      | inl b ↦ absurd (ground arith)
      | inr b ↦ inr (a ∙ sym b, fuller_cases w c (rw (a, b) at h.0) (rw (a, b) at h.1))
    ]
  ]

  -- A cluster that is not empty has a winner, one of its records. Against every record the winner has
  -- a real name where the other has none; or both have one or none, and the winner has more fields
  -- filled; or as many, and the newer date; or the same date, and the other's `source_id` is not
  -- smaller.
  pub pick_winner_best :
      (c : DupCandidate) (cs : List DupCandidate)
      → (w : DupCandidate) × (pick_winner (c ∷ cs) ≡ some w)
        × Memᴰ w (c ∷ cs)
        × All (RanksFirst w) (c ∷ cs)
  unfolding pick_winner
  pick_winner_best c cs =
      let by_id = sort_by id_lt (c ∷ cs) in
      let (w, e, best) =
        best_of_list by_id (head?-insert id_lt c (sort_by id_lt cs)) (sort-IsAscending (c ∷ cs)) in
      (
        w,
        e,
        head?-All (λ d. Memᴰ d (c ∷ cs)) (sort_by rank_lt by_id) e
            (All-sort rank_lt (λ d. Memᴰ d (c ∷ cs)) by_id
              (All-sort id_lt (λ d. Memᴰ d (c ∷ cs)) (c ∷ cs) (All-Memᴰ (c ∷ cs)))),
        All-map (Beats w) (RanksFirst w) (RanksFirst-of_Beats w) (c ∷ cs)
            (All-of_sort id_lt (Beats w) (c ∷ cs) best),
      )
