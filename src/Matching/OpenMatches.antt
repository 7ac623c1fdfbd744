-- ===== src/Matching/OpenMatches.antt =====
-- The rule of the index on the match table, and who is recommended by a run.
use jp_adopt_core.Prelude.{
  Bool-cases, ℕ, ◌<◌, String, ◌≡◌, ◌⊎◌, inl, inr, refl, true, false, none, some, List, [], ◌∷◌,
  ◌++◌, arith, in_ids, in_texts, All, All-append, All-map, ◌==◌, ◌&&◌, ◌=ₛ◌, ==_iff, =ₛ_iff, sym,
}
use mathlib.Core.List.{Memᴰ}
use mathlib.Core.Path.{subst}
use jp_adopt_core.Matching.Rows.{
  FacilitatingOrg, AdopterInterest, Match, recommended, triage, is_open, is_refusal,
}
use jp_adopt_core.Matching.Filter.{hard_filter_passes}
use jp_adopt_core.Matching.Process.{MatchRun, Tables, find_open}
use jp_adopt_core.Matching.Run.{
  covered_by, resolve_triage_org, settled_run, match_or_route, derive_exclusion_list, interest_ids,
  interests_of, refused_by,
}
use jp_adopt_core.Matching.Justified.{IsJustified, match_or_route-keeps}

-- No interest has two open matches.
abbrev pub IsOneOpen : List Match → Type 0
IsOneOpen [] = Unit
IsOneOpen (m ∷ ms) =
    ((is_open m.status ≡ false) ⊎ (find_open m.adopter_interest_id ms ≡ none)) × IsOneOpen ms

find_open-append :
    (i : ℕ) (ms : List Match) (m : Match)
    → find_open i ms ≡ none
    → (m.adopter_interest_id == i ≡ false) ⊎ (is_open m.status ≡ false)
    → find_open i (ms ++ m ∷ []) ≡ none
find_open-append i [] m e h = ground arith
find_open-append i (n ∷ ms) m e h = ground (arith, find_open-append i ms m)

pub append-IsOneOpen :
    (ms : List Match) (m : Match)
    → find_open m.adopter_interest_id ms ≡ none
    → IsOneOpen ms
    → IsOneOpen (ms ++ m ∷ [])
append-IsOneOpen [] m e h = (inr refl, tt)
append-IsOneOpen (n ∷ ms) m e h = (
  elim (Bool-cases (is_open n.status)) [
    | inr o ↦ inl o
    | inl o ↦ inr (find_open-append n.adopter_interest_id ms m (ground arith) (ground arith))
  ],
  append-IsOneOpen ms m (ground arith) h.1,
)

-- No refused match of these interests is with the org.
abbrev pub IsUnrefused : List ℕ → List Match → ℕ → Type 0
IsUnrefused ids ms org_id =
    All
      (λ m.
        (in_ids m.adopter_interest_id ids && is_refusal m.status && m.facilitator_org_id == org_id)
        ≡ false)
      ms

refused_by-IsUnrefused :
    (ids : List ℕ) (ms : List Match) (i : ℕ)
    → in_ids i (refused_by ids ms) ≡ false
    → IsUnrefused ids ms i
refused_by-IsUnrefused ids [] i h = tt
refused_by-IsUnrefused ids (m ∷ ms) i h =
    (ground arith, refused_by-IsUnrefused ids ms i (ground arith))

-- What a run for a contact may add, for one of its interests: a row for the triage org, or a
-- recommendation of an active org with free capacity that covers the interest's people group and has
-- refused no interest of the contact. The interest and the org are rows of the tables.
abbrev pub IsNew : {F : Type 0} → Tables F → ℕ → Match → Type 0
IsNew t contact_id m =
    (i : AdopterInterest) × (o : FacilitatingOrg) × Memᴰ i t.interests
    × Memᴰ o t.orgs
    × (i.contact_id ≡ contact_id)
    × (m.adopter_interest_id ≡ i.id)
    × (m.facilitator_org_id ≡ o.id)
    × (((m.status ≡ triage) × (o.is_triage_org ≡ true))
        ⊎ ((p : String) × (m.status ≡ recommended)
            × (o.is_triage_org ≡ false)
            × (i.people_id3 ≡ some p)
            × Memᴰ (o.id, p) t.coverage
            × IsUnrefused (interest_ids (interests_of contact_id t.interests)) t.matches o.id
            × (o.active ≡ true)
            × (o.capacity_committed < o.capacity_total)))

covered_by-Memᴰ :
    (org_id : ℕ) (p : String) (coverage : List (ℕ × String))
    → in_texts p (covered_by org_id coverage) ≡ true
    → Memᴰ (org_id, p) coverage
covered_by-Memᴰ org_id p [] h = absurd (ground arith)
covered_by-Memᴰ org_id p ((o, q) ∷ rest) h = elim (Bool-cases (o == org_id)) [
  | inr other ↦ Memᴰ.tail (covered_by-Memᴰ org_id p rest (rw other at h))
  | inl same ↦ elim (Bool-cases (p =ₛ q)) [
    | inl e ↦
        let is : o ≡ org_id = (==_iff o org_id).0 same in
        let it : p ≡ q = (=ₛ_iff p q).0 e in Memᴰ.head (λ k. (sym is k, it k))
    | inr e ↦ Memᴰ.tail (covered_by-Memᴰ org_id p rest (rw (same, e) at h))
  ]
]

resolve_triage_org-Memᴰ :
    (os : List FacilitatingOrg) (o : FacilitatingOrg)
    → resolve_triage_org os ≡ some o
    → Memᴰ o os × (o.is_triage_org ≡ true)
unfolding resolve_triage_org
resolve_triage_org-Memᴰ [] o h = absurd (ground arith)
resolve_triage_org-Memᴰ (x ∷ os) o h = elim (Bool-cases x.is_triage_org) [
  | inl e ↦
      let same : x ≡ o = ground arith in
      (Memᴰ.head (sym same), subst (λ (y : FacilitatingOrg). y.is_triage_org ≡ true) same e)
  | inr e ↦ let (there, is) = resolve_triage_org-Memᴰ os o (rw e at h) in (Memᴰ.tail there, is)
]

interests_of-Memᴰ :
    (contact_id : ℕ) (i : AdopterInterest) (xs : List AdopterInterest)
    → Memᴰ i (interests_of contact_id xs)
    → Memᴰ i xs × (i.contact_id ≡ contact_id)
unfolding interests_of
interests_of-Memᴰ contact_id i [] h = elim h [ ]
interests_of-Memᴰ contact_id i (x ∷ xs) h = elim (Bool-cases (x.contact_id == contact_id)) [
  | inr other ↦
      let (there, of) = interests_of-Memᴰ contact_id i xs (rw other at h) in (Memᴰ.tail there, of)
  | inl same ↦
      go (interests_of-Memᴰ contact_id i xs) ((==_iff x.contact_id contact_id).0 same)
        (rw same at h)
]
  where
    go :
        (Memᴰ i (interests_of contact_id xs) → Memᴰ i xs × (i.contact_id ≡ contact_id))
        → x.contact_id ≡ contact_id
        → Memᴰ i (x ∷ interests_of contact_id xs)
        → Memᴰ i (x ∷ xs) × (i.contact_id ≡ contact_id)
    go rest of (Memᴰ.head e) =
        (Memᴰ.head e, subst (λ (y : AdopterInterest). y.contact_id ≡ contact_id) (sym e) of)
    go rest of (Memᴰ.tail m) = let (there, k) = rest m in (Memᴰ.tail there, k)

IsNew-of_justified :
    {F : Type 0} (run : MatchRun F) (t : Tables F) (org : FacilitatingOrg) (m : Match)
    → resolve_triage_org t.orgs ≡ some org
    → let r = settled_run run none org t in
      IsJustified r.triage_org_id t.orgs t.coverage r.excluded
        (interests_of run.contact.id t.interests)
        m
      → IsNew t run.contact.id m
unfolding derive_exclusion_list
IsNew-of_justified run t org m e (i, there, of, inl (s, id)) =
    let (mine, contact) = interests_of-Memᴰ run.contact.id i t.interests there in
    let (row, is) = resolve_triage_org-Memᴰ t.orgs org e in
    (i, org, mine, row, contact, of, id, inl (s, is))
IsNew-of_justified run t org m e (i, there, of, inr (o, p, row, group, s, id, n, passes)) =
    let (mine, contact) = interests_of-Memᴰ run.contact.id i t.interests there in
    let ids = interest_ids (interests_of run.contact.id t.interests) in
    let (free, act, cap, cov) =
      (hard_filter_passes o p (covered_by o.id t.coverage) (refused_by ids t.matches)).0 passes in
    (
      i,
      o,
      mine,
      row,
      contact,
      of,
      id,
      inr (
        p,
        s,
        n,
        group,
        covered_by-Memᴰ o.id p t.coverage cov,
        refused_by-IsUnrefused ids t.matches o.id free,
        act,
        cap,
      ),
    )

abbrev pub Explained : {F : Type 0} → Tables F → ℕ → (Match → Type 0) → Match → Type 0
Explained t contact_id Known m = Known m ⊎ IsNew t contact_id m

-- After a run without an explicit exclusion list, every match is an old one or one that other
-- transactions brought, or a new one for an interest of the contact: a row for the triage org, or a
-- recommendation of an org of the table that is active and not the triage org, has free capacity,
-- covers the interest's people group, and has sent back or declined no match of the contact's interests.
pub match_or_route_recommends :
    {F : Type 0} (run : MatchRun F) (t : Tables F) (Known : Match → Type 0)
    → ((ms : List Match)
        → All (Explained t run.contact.id Known) ms
        → All (Explained t run.contact.id Known) (run.others ms))
    → All Known t.matches
    → All (Explained t run.contact.id Known) (match_or_route run none t).1.matches
match_or_route_recommends run t Known others h =
    let Good = Explained t run.contact.id Known in
    match_or_route-keeps run none t (All Good)
      (λ org e. record {
        others_keep = others;
        insert_keeps = λ m ms free j old.
            All-append Good ms (m ∷ []) old (inr (IsNew-of_justified run t org m e j), tt);
      })
      (All-map Known Good (λ m k. inl k) t.matches h)
