-- ===== src/Digest/Loaded.antt =====
-- No match of the window is left out.
use jp_adopt_core.Prelude.{
  Bool, if◌then◌else◌, ℕ, ◌≡◌, refl, ◌⊎◌, inl, inr, ◌≤◌, ◌<◌, true, false, none, some, List, [],
  ◌∷◌, ltb, leb, All, All-map, Bool-cases, Option-cases, ◌≢◌, arith,
}
use jp_adopt_core.Matching.Rows.{AdopterInterest, MatchStatus, recommended, accepted}
use jp_adopt_core.Decide.Rows.{find_interest, find_contact, find_org}
use jp_adopt_core.Digest.Rows.{StampedMatch, DigestMatch, Tables}
use jp_adopt_core.Digest.Addresses.{Any}
use jp_adopt_core.Digest.Plans.{
  join_interest, in_window, insert_match, insert_all, load_matches_in_window, is_digest_status,
}

module _ (P : DigestMatch → Type 0) where
  insert_match-head : (m : DigestMatch) (xs : List DigestMatch) → P m → Any P (insert_match m xs)
  insert_match-head m [] p = inl p
  insert_match-head m (x ∷ xs) p = elim (Bool-cases (ltb x.recommended_at m.recommended_at)) [
    | inl e ↦ rw e (inr (insert_match-head m xs p))
    | inr e ↦ rw e (inl p)
  ]

  insert_match-Any :
      (m : DigestMatch) (xs : List DigestMatch) → Any P xs → Any P (insert_match m xs)
  insert_match-Any m [] h = absurd h
  insert_match-Any m (x ∷ xs) (inl p) = elim (Bool-cases (ltb x.recommended_at m.recommended_at)) [
    | inl e ↦ rw e (inl p)
    | inr e ↦ rw e (inr (inl p))
  ]
  insert_match-Any m (x ∷ xs) (inr h) = elim (Bool-cases (ltb x.recommended_at m.recommended_at)) [
    | inl e ↦ rw e (inr (insert_match-Any m xs h))
    | inr e ↦ rw e (inr (inr h))
  ]

  insert_all-right : (ms xs : List DigestMatch) → Any P xs → Any P (insert_all ms xs)
  insert_all-right [] xs h = h
  insert_all-right (m ∷ ms) xs h = insert_match-Any m (insert_all ms xs) (insert_all-right ms xs h)

  insert_all-left : (ms xs : List DigestMatch) → Any P ms → Any P (insert_all ms xs)
  insert_all-left [] xs h = absurd h
  insert_all-left (m ∷ ms) xs (inl p) = insert_match-head m (insert_all ms xs) p
  insert_all-left (m ∷ ms) xs (inr h) =
      insert_match-Any m (insert_all ms xs) (insert_all-left ms xs h)

-- The match has another status than recommended and accepted, or lies outside the window.
abbrev pub IsOutside : ℕ → ℕ → StampedMatch → Type 0
IsOutside w w' m =
    ((m.row.status ≢ recommended) × (m.row.status ≢ accepted))
    ⊎ (m.recommended_at < w)
    ⊎ (w' ≤ m.recommended_at)

-- The match's organisation or interest, or the interest's contact, is not there.
abbrev pub IsDangling : Tables → StampedMatch → Type 0
IsDangling t m =
    (find_org m.row.facilitator_org_id t.orgs ≡ none)
    ⊎ (find_interest m.row.adopter_interest_id t.interests ≡ none)
    ⊎ ((i : AdopterInterest) × (find_interest m.row.adopter_interest_id t.interests ≡ some i)
        × (find_contact i.contact_id t.contacts ≡ none))

-- The entry of a match in the digest.
abbrev pub IsEntry : StampedMatch → DigestMatch → Type 0
IsEntry m x = (x.match_id ≡ m.row.id) × (x.recommended_at ≡ m.recommended_at)

abbrev pub IsListed : Tables → ℕ → ℕ → List DigestMatch → StampedMatch → Type 0
IsListed t w w' loaded m = IsOutside w w' m ⊎ IsDangling t m ⊎ Any (IsEntry m) loaded

other_status : (s : MatchStatus) → is_digest_status s ≡ false → (s ≢ recommended) × (s ≢ accepted)
other_status s h = (λ e. absurd (cc (rw e at h)), λ e. absurd (cc (rw e at h)))

outside : (w w' : ℕ) (m : StampedMatch) → in_window w w' m ≡ false → IsOutside w w' m
outside w w' m h = elim (Bool-cases (is_digest_status m.row.status)) [
  | inr other ↦ inl (other_status m.row.status other)
  | inl is ↦ elim (Bool-cases (leb w m.recommended_at)) [
    | inr early ↦ inr (inl (ground arith))
    | inl late ↦ inr (inr (ground arith))
  ]
]

joined :
    (t : Tables) (m : StampedMatch)
    → IsDangling t m
      ⊎ Any (IsEntry m) (join_interest t m (find_interest m.row.adopter_interest_id t.interests))
joined t m = elim (Option-cases (find_org m.row.facilitator_org_id t.orgs)) [
  | inl none_ ↦ inl (inl none_)
  | inr (o, e) ↦ elim (Option-cases (find_interest m.row.adopter_interest_id t.interests)) [
    | inl none_ ↦ inl (inr (inl none_))
    | inr (i, k) ↦ elim (Option-cases (find_contact i.contact_id t.contacts)) [
      | inl none_ ↦ inl (inr (inr (i, k, none_)))
      | inr (c, n) ↦ inr (rw (k, n, e) (inl (refl, refl)))
    ]
  ]
]

still-IsListed :
    (t : Tables) (w w' : ℕ) (xs ys : List DigestMatch)
    → ((P : DigestMatch → Type 0) → Any P xs → Any P ys)
    → (m : StampedMatch) → IsListed t w w' xs m
    → IsListed t w w' ys m
still-IsListed t w w' xs ys f m (inl o) = inl o
still-IsListed t w w' xs ys f m (inr (inl d)) = inr (inl d)
still-IsListed t w w' xs ys f m (inr (inr a)) = inr (inr (f (IsEntry m) a))

-- Every match of the table is loaded, unless it is outside or dangling.
pub load-IsListed :
    (t : Tables) (w w' : ℕ) (ms : List StampedMatch)
    → All (IsListed t w w' (load_matches_in_window t w w' ms)) ms
unfolding load_matches_in_window
load-IsListed t w w' [] = tt
load-IsListed t w w' (m ∷ ms) = go (in_window w w' m) refl (load-IsListed t w w' ms)
  where
    rest : List DigestMatch
    rest = load_matches_in_window t w w' ms

    entries : List DigestMatch
    entries = join_interest t m (find_interest m.row.adopter_interest_id t.interests)

    go :
        (b : Bool)
        → in_window w w' m ≡ b
        → All (IsListed t w w' rest) ms
        → All (IsListed t w w' (if b then insert_all entries rest else rest)) (m ∷ ms)
    go false out h = (inl (outside w w' m out), h)
    go true in_ h = (
      elim (joined t m) [
        | inl d ↦ inr (inl d)
        | inr a ↦ inr (inr (insert_all-left (IsEntry m) entries rest a))
      ],
      All-map _ _
          (still-IsListed t w w' rest (insert_all entries rest)
            (λ P h'. insert_all-right P entries rest h'))
          ms h,
    )
