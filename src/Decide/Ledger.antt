-- ===== src/Decide/Ledger.antt =====
-- The capacity counter as a ledger: when it counts the matches that hold a slot.
use jp_adopt_core.Prelude.{
  ℕ, ◌+◌, ◌≡◌, refl, inl, inr, Bool, true, false, not, none, some, List, [], ◌∷◌, ◌++◌, arith,
  if◌then◌else◌, ◌==◌, ◌&&◌, Bool-cases, ==_iff, sym, ap, ◌∙◌, Option-cases,
}
use mathlib.Core.Path.{subst}
use jp_adopt_core.Workflow.States.{AdopterState}
use jp_adopt_core.Models.{Contact}
use jp_adopt_core.Matching.Rows.{FacilitatingOrg, Match, MatchStatus}
use jp_adopt_core.Decide.Rows.{
  Store, Actor, DecideRequest, Fresh, is_some, is_reserved, find_match, update_match, update_org,
  find_org,
}
use jp_adopt_core.Decide.Parts.{or_else, current_state, is_matched, stamp_decision, rerouted_match}
use jp_adopt_core.Decide.Capacity.{reserve_slot, release_slot, try_decrement_capacity}
use jp_adopt_core.Decide.Steps.{Reserves, released}
use jp_adopt_core.Decide.Admission.{Admitted}
use jp_adopt_core.Decide.Invariants.{reserve_has_slot, find_match-own}
use jp_adopt_core.Decide.Keeps.{decide_match-keeps}
use jp_adopt_core.Decide.Handler.{decide_match}

-- A match that holds a slot of its organisation: reserved, and not forced by staff.
abbrev pub holds_slot : ℕ → Match → Bool
holds_slot i m = is_reserved m.status && not m.is_manual_override && m.facilitator_org_id == i

abbrev pub as_count : Bool → ℕ
as_count b = if b then 1 else 0

abbrev pub count_slots : ℕ → List Match → ℕ
count_slots i [] = 0
count_slots i (m ∷ ms) = as_count (holds_slot i m) + count_slots i ms

-- Each organisation's counter is the number of the matches that hold one of its slots.
abbrev pub IsLedger : List FacilitatingOrg → List Match → Type 0
IsLedger orgs ms =
    (i : ℕ) (o : FacilitatingOrg)
    → find_org i orgs ≡ some o
    → o.capacity_committed ≡ count_slots i ms

count_slots-append :
    (i : ℕ) (ms : List Match) (m : Match)
    → count_slots i (ms ++ m ∷ []) ≡ count_slots i ms + as_count (holds_slot i m)
count_slots-append i [] m = omega arith
count_slots-append i (n ∷ ms) m = omega (arith, count_slots-append i ms m)

count_slots-update_match :
    (i j : ℕ) (g : Match → Match) (m : Match) (ms : List Match)
    → find_match j ms ≡ some m
    → count_slots i (update_match j g ms) + as_count (holds_slot i m)
      ≡ count_slots i ms + as_count (holds_slot i (g m))
count_slots-update_match i j g m [] h = absurd (ground arith)
count_slots-update_match i j g m (n ∷ ms) h = elim (Bool-cases (n.id == j)) [
  | inl e ↦ rw e (
      subst
        (λ (y : Match).
          as_count (holds_slot i (g n)) + count_slots i ms + as_count (holds_slot i y)
          ≡ as_count (holds_slot i n) + count_slots i ms + as_count (holds_slot i (g y)))
        (ap (or_else m) (rw e at h)) (omega arith))
  | inr e ↦ rw e (omega (arith, count_slots-update_match i j g m ms (rw e at h)))
]

find_org-update_org :
    (i j : ℕ) (f : FacilitatingOrg → FacilitatingOrg) (orgs : List FacilitatingOrg)
    → ((o : FacilitatingOrg) → (f o).id ≡ o.id)
    → find_org i (update_org j f orgs) ≡ (
        if j == i
        then elim (find_org i orgs) [ none ↦ none | some o ↦ some (f o) ]
        else find_org i orgs)
find_org-update_org i j f [] k = ground arith
find_org-update_org i j f (o ∷ os) k = ground (arith, k o, find_org-update_org i j f os k)

module _ (ms ms' : List Match) (j : ℕ) where
  -- An update of one organisation that changes its counter as the matches change.
  update_org-IsLedger :
      (f : FacilitatingOrg → FacilitatingOrg) (orgs : List FacilitatingOrg)
      → ((o : FacilitatingOrg) → (f o).id ≡ o.id)
      → ((i : ℕ) → j == i ≡ false → count_slots i ms' ≡ count_slots i ms)
      → ((o : FacilitatingOrg)
          → o.capacity_committed ≡ count_slots j ms
          → (f o).capacity_committed ≡ count_slots j ms')
      → IsLedger orgs ms
      → IsLedger (update_org j f orgs) ms'
  update_org-IsLedger f orgs k others own h i o found =
      let at_i = sym (find_org-update_org i j f orgs k) ∙ found in
      elim (Bool-cases (j == i)) [
        | inr n ↦ h i o (rw n at at_i) ∙ sym (others i n)
        | inl e ↦
            let q = rw e at at_i in
            elim (Option-cases (find_org i orgs)) [
              | inl gone ↦ absurd (ground (arith, (rw gone at q)))
              | inr (x, is_x) ↦
                  let same : f x ≡ o = ap (or_else o) (rw is_x at q) in
                  let i_is_j = (==_iff j i).0 e in
                  subst (λ (y : FacilitatingOrg). y.capacity_committed ≡ count_slots i ms') same
                    (subst (λ (z : ℕ). (f x).capacity_committed ≡ count_slots z ms') i_is_j
                      (own x (
                        subst (λ (z : ℕ). x.capacity_committed ≡ count_slots z ms) (sym i_is_j)
                          (h i x is_x))))
            ]
      ]

  reserve-IsLedger :
      (now : ℕ) (b : Bool) (orgs orgs' : List FacilitatingOrg)
      → Reserves now b j orgs orgs'
      → ((i : ℕ) → count_slots i ms' ≡ count_slots i ms + as_count (b && j == i))
      → IsLedger orgs ms
      → IsLedger orgs' ms'
  reserve-IsLedger now b orgs orgs' (inr (off, e)) c h =
      subst (λ os. IsLedger os ms') (sym e) (λ i o f. ground (arith, h i o f, c i, off))
  reserve-IsLedger now b orgs orgs' (inl (on, e)) c h =
      let (o, f, t, same) = reserve_has_slot now j orgs orgs' e in
      subst (λ os. IsLedger os ms') same
        (update_org-IsLedger (reserve_slot now) orgs (λ o. refl) (λ i n. ground (arith, c i, on))
          (λ o q. ground (arith, c j, on, (==_iff j j).1 refl)) h)

  released-IsLedger :
      (b : Bool) (orgs : List FacilitatingOrg)
      → ((i : ℕ) → count_slots i ms' + as_count (b && j == i) ≡ count_slots i ms)
      → IsLedger orgs ms
      → IsLedger (released b j orgs) ms'
  unfolding try_decrement_capacity
  released-IsLedger false orgs c h = λ i o f. ground (arith, h i o f, c i)
  released-IsLedger true orgs c h =
      update_org-IsLedger release_slot orgs (λ o. ground arith) (λ i n. ground (arith, c i))
        (λ o q. ground (arith, c j, (==_iff j j).1 refl)) h

stamp_slots :
    (actor : Actor) (fresh : Fresh) (body : DecideRequest) (st : MatchStatus) (i j : ℕ) (m : Match)
    (ms : List Match)
    → find_match j ms ≡ some m
    → count_slots i (update_match m.id (stamp_decision actor fresh body st) ms)
        + as_count (holds_slot i m)
      ≡ count_slots i ms + as_count (holds_slot i (stamp_decision actor fresh body st m))
stamp_slots actor fresh body st i j m ms f =
    count_slots-update_match i m.id (stamp_decision actor fresh body st) m ms
      (find_match-own j m ms f)

module _ {F : Type 0} (actor : Actor) (fresh : Fresh) (body : DecideRequest) where
  -- The decisions that the ledger is kept for. The contact is matched exactly if its match holds a
  -- reservation, and a reserved match is moved only by an override.
  abbrev pub IsRegular : ℕ → Store F → Type 0
  IsRegular match_id db =
      (m : Match) (contact : Contact)
      → Admitted actor fresh body match_id m contact db
      → ((current : AdopterState)
          → current_state contact.adopter_status ≡ some current
          → is_matched current ≡ is_reserved m.status)
        × (is_reserved m.status ≡ true → is_some body.facilitator_org_id ≡ true)

  -- If each organisation's counter is the number of the matches that hold one of its slots, then it
  -- still is after a decision that is regular: the contact's status is MATCHED exactly if the match is
  -- reserved, and a reserved match is not moved to a ranked alternate.
  pub decide_match-IsLedger :
      (match_id : ℕ) (db : Store F)
      → IsRegular match_id db
      → IsLedger db.tables.orgs db.tables.matches
      → let t = (decide_match actor fresh body match_id db).1.tables in IsLedger t.orgs t.matches
  decide_match-IsLedger i db regular l =
      let ms = db.tables.matches in
      decide_match-keeps actor fresh body i db
        (λ (s : Store F). IsLedger s.tables.orgs s.tables.matches)
        (record {
          before = l;
          by_accept = λ role m c s' a q t.
              let counts = λ (k : ℕ).
                stamp_slots actor fresh body
                  (if is_matched t.current then MatchStatus.active else MatchStatus.accepted) k i m
                  ms a.found in
              let agree = (regular m c a).0 t.current t.status_is in
              subst (IsLedger s'.tables.orgs) (sym t.matches_are) (
                reserve-IsLedger ms _ m.facilitator_org_id fresh.now _ db.tables.orgs s'.tables.orgs
                  t.reserves (λ k. ground (arith, counts k, agree)) l);
          by_send_back = λ role m c s' a q t.
              let counts =
                λ (k : ℕ). stamp_slots actor fresh body MatchStatus.sent_back k i m ms a.found in
              let marked =
                update_match m.id (stamp_decision actor fresh body MatchStatus.sent_back) ms in
              subst (IsLedger s'.tables.orgs) (sym t.matches_are) (
                subst (λ os. IsLedger os marked) (sym t.releases)
                  (released-IsLedger ms marked m.facilitator_org_id _ db.tables.orgs
                    (λ k. ground (arith, counts k)) l));
          by_reroute = λ role m c s' a q t.
              let marked =
                update_match m.id (stamp_decision actor fresh body MatchStatus.declined) ms in
              let counts =
                λ (k : ℕ). stamp_slots actor fresh body MatchStatus.declined k i m ms a.found in
              let new = rerouted_match fresh body m t.target in
              subst (IsLedger s'.tables.orgs) (sym t.matches_are) (
                reserve-IsLedger marked _ t.target fresh.now _ _ s'.tables.orgs t.reserves
                  (λ k. ground (arith, count_slots-append k marked new, (regular m c a).1))
                  (released-IsLedger ms marked m.facilitator_org_id _ db.tables.orgs
                    (λ k. ground (arith, counts k)) l));
        })
