-- ===== src/Decide/Invariants.antt =====
-- What every decision keeps: the capacity bound of each organisation, and the index's rule that an
-- interest has one open match at most.
use jp_adopt_core.Prelude.{
  ℕ, ◌+◌, ◌≤◌, ◌≡◌, refl, inl, inr, Bool, true, false, none, some, List, [], ◌∷◌, arith, ◌==◌, ltb,
  Bool-cases, ==_iff, All, sym, ap, ◌∙◌, Option-cases,
}
use mathlib.Core.Path.{subst}
use jp_adopt_core.Matching.Rows.{FacilitatingOrg, Match, MatchStatus, is_open}
use jp_adopt_core.Matching.Process.{find_open}
use jp_adopt_core.Matching.OpenMatches.{IsOneOpen, append-IsOneOpen}
use jp_adopt_core.Decide.Rows.{
  Store, Actor, DecideRequest, Fresh, in_queue, find_match, update_match, update_org, find_org,
}
use jp_adopt_core.Decide.Parts.{or_else, stamp_decision, rerouted_match}
use jp_adopt_core.Decide.Capacity.{
  reserve_slot, release_slot, try_increment_capacity, try_decrement_capacity,
}
use jp_adopt_core.Decide.Steps.{Reserves, released}
use jp_adopt_core.Decide.Keeps.{decide_match-keeps}
use jp_adopt_core.Decide.Handler.{decide_match}

-- No organisation has more slots taken than it has.
abbrev pub IsWithin : FacilitatingOrg → Type 0
IsWithin o = o.capacity_committed ≤ o.capacity_total

-- An update keeps a property of the rows, if it keeps it on the row that it finds.
update_org-All :
    (P : FacilitatingOrg → Type 0) (i : ℕ) (f : FacilitatingOrg → FacilitatingOrg)
    → (orgs : List FacilitatingOrg)
    → ((o : FacilitatingOrg) → find_org i orgs ≡ some o → P o → P (f o))
    → All P orgs
    → All P (update_org i f orgs)
update_org-All P i f [] k h = tt
update_org-All P i f (o ∷ os) k h = elim (Bool-cases (o.id == i)) [
  | inl e ↦ rw e (k o (rw e refl) h.0, h.1)
  | inr e ↦ rw e (h.0, update_org-All P i f os (λ x q. k x (rw e q)) h.1)
]

-- A reservation that succeeded found a free slot.
pub reserve_has_slot :
    (now i : ℕ) (orgs orgs' : List FacilitatingOrg)
    → try_increment_capacity now i orgs ≡ (true, orgs')
    → (o : FacilitatingOrg) × (find_org i orgs ≡ some o)
      × (ltb o.capacity_committed o.capacity_total ≡ true)
      × (update_org i (reserve_slot now) orgs ≡ orgs')
unfolding try_increment_capacity
reserve_has_slot now i orgs orgs' e = elim (Option-cases (find_org i orgs)) [
  | inl n ↦ absurd (ground (arith, ap (λ (r : Bool × List FacilitatingOrg). r.0) e, n))
  | inr (o, f) ↦
      let e' = rw (try_increment_capacity, f) at e in
      elim (Bool-cases (ltb o.capacity_committed o.capacity_total)) [
        | inl t ↦ (o, f, t, ap (λ (r : Bool × List FacilitatingOrg). r.1) (rw t at e'))
        | inr t ↦ absurd (ground (arith, ap (λ (r : Bool × List FacilitatingOrg). r.0) e', t))
      ]
]

reserve-IsWithin :
    (now : ℕ) (b : Bool) (i : ℕ) (orgs orgs' : List FacilitatingOrg)
    → Reserves now b i orgs orgs'
    → All IsWithin orgs
    → All IsWithin orgs'
unfolding try_increment_capacity
reserve-IsWithin now b i orgs orgs' (inr (_, e)) h = rw e h
reserve-IsWithin now b i orgs orgs' (inl (_, e)) h =
    let (o, f, t, same) = reserve_has_slot now i orgs orgs' e in
    subst (All IsWithin) same (
      update_org-All IsWithin i (reserve_slot now) orgs
        (λ x g w.
          subst (λ (y : FacilitatingOrg). y.capacity_committed + 1 ≤ y.capacity_total)
            (ap (or_else o) (sym f ∙ g)) (ground (arith, t)))
        h)

released-IsWithin :
    (b : Bool) (i : ℕ) (orgs : List FacilitatingOrg)
    → All IsWithin orgs
    → All IsWithin (released b i orgs)
unfolding try_decrement_capacity
released-IsWithin false i orgs h = h
released-IsWithin true i orgs h =
    update_org-All IsWithin i release_slot orgs (λ o e w. ground arith) h

-- A decision, whatever its outcome, leaves every organisation with at most as many slots taken as it
-- has, if that held before.
pub decide_match-IsWithin :
    {F : Type 0} (actor : Actor) (fresh : Fresh) (body : DecideRequest) (match_id : ℕ)
    (db : Store F)
    → All IsWithin db.tables.orgs
    → All IsWithin (decide_match actor fresh body match_id db).1.tables.orgs
decide_match-IsWithin {F} actor fresh body i db h =
    let s = db in
    decide_match-keeps actor fresh body i db (λ (s' : Store F). All IsWithin s'.tables.orgs)
      (record {
        before = h;
        by_accept = λ role m c s' a q t.
            reserve-IsWithin fresh.now _ _ s.tables.orgs s'.tables.orgs t.reserves h;
        by_send_back = λ role m c s' a q t.
            subst (All IsWithin) (sym t.releases) (released-IsWithin _ _ s.tables.orgs h);
        by_reroute = λ role m c s' a q t.
            reserve-IsWithin fresh.now _ _ _ s'.tables.orgs t.reserves
              (released-IsWithin _ _ s.tables.orgs h);
      })

-- A new status opens no closed row.
abbrev OpensNone : MatchStatus → ℕ → List Match → Type 0
OpensNone st i ms =
    (x : Match) → find_match i ms ≡ some x → is_open st ≡ true → is_open x.status ≡ true

module _ (actor : Actor) (fresh : Fresh) (body : DecideRequest) (st : MatchStatus) (i : ℕ) where
  update_match-find_open :
      (j : ℕ) (ms : List Match)
      → OpensNone st i ms
      → find_open j ms ≡ none
      → find_open j (update_match i (stamp_decision actor fresh body st) ms) ≡ none
  update_match-find_open j [] k h = refl
  update_match-find_open j (m ∷ ms) k h = elim (Bool-cases (m.id == i)) [
    | inl e ↦ rw e (ground (arith, k m (rw e refl)))
    | inr e ↦ rw e (ground (arith, update_match-find_open j ms (λ x q. k x (rw e q))))
  ]

  update_match-IsOneOpen :
      (ms : List Match)
      → OpensNone st i ms
      → IsOneOpen ms
      → IsOneOpen (update_match i (stamp_decision actor fresh body st) ms)
  update_match-IsOneOpen [] k h = tt
  update_match-IsOneOpen (m ∷ ms) k h = elim (Bool-cases (m.id == i)) [
    | inl e ↦ rw e (
      elim (Bool-cases (is_open st)) [
        | inl o ↦ ground (arith, k m (rw e refl) o, h.0)
        | inr o ↦ inl o
      ],
      h.1,
    )
    | inr e ↦ rw e (
      elim h.0 [
        | inl o ↦ inl o
        | inr o ↦ inr (update_match-find_open m.adopter_interest_id ms (λ x q. k x (rw e q)) o)
      ],
      update_match-IsOneOpen ms (λ x q. k x (rw e q)) h.1,
    )
  ]

pub find_match-id : (j : ℕ) (m : Match) (ms : List Match) → find_match j ms ≡ some m → m.id ≡ j
find_match-id j m [] h = absurd (ground arith)
find_match-id j m (n ∷ ms) h = elim (Bool-cases (n.id == j)) [
  | inl e ↦ subst (λ (y : Match). y.id ≡ j) (ap (or_else m) (rw e at h)) ((==_iff n.id j).0 e)
  | inr e ↦ find_match-id j m ms (rw e at h)
]

-- The row that a lookup finds is found by its own identifier.
pub find_match-own :
    (j : ℕ) (m : Match) (ms : List Match) → find_match j ms ≡ some m → find_match m.id ms ≡ some m
find_match-own j m ms h = subst (λ i. find_match i ms ≡ some m) (sym (find_match-id j m ms h)) h

in_queue_open : (m : Match) → in_queue m.status ≡ true → is_open m.status ≡ true
in_queue_open m h = ground arith

-- A decision, whatever its outcome, leaves no interest with two open matches, if none had two before.
pub decide_match-IsOneOpen :
    {F : Type 0} (actor : Actor) (fresh : Fresh) (body : DecideRequest) (match_id : ℕ)
    (db : Store F)
    → IsOneOpen db.tables.matches
    → IsOneOpen (decide_match actor fresh body match_id db).1.tables.matches
decide_match-IsOneOpen {F} actor fresh body i db h =
    let s = db in
    decide_match-keeps actor fresh body i db (λ (s' : Store F). IsOneOpen s'.tables.matches)
      (record {
        before = h;
        by_accept = λ role m c s' a q t. subst IsOneOpen (sym t.matches_are) (
            update_match-IsOneOpen actor fresh body _ m.id s.tables.matches
              (λ x f o.
                subst (λ (y : Match). is_open y.status ≡ true)
                  (ap (or_else m) (sym (find_match-own i m s.tables.matches a.found) ∙ f))
                  (in_queue_open m q))
              h);
        by_send_back = λ role m c s' a q t. subst IsOneOpen (sym t.matches_are) (
            update_match-IsOneOpen actor fresh body _ m.id s.tables.matches (λ x f o. ground arith)
              h);
        by_reroute = λ role m c s' a q t. subst IsOneOpen (sym t.matches_are) (
            append-IsOneOpen _ (rerouted_match fresh body m t.target) t.free (
              update_match-IsOneOpen actor fresh body _ m.id s.tables.matches
                (λ x f o. ground arith) h));
      })
