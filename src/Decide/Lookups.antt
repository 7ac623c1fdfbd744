-- ===== src/Decide/Lookups.antt =====
-- Lookups in the tables after an update or an insertion.
use jp_adopt_core.Prelude.{
  ℕ, ◌≡◌, refl, inl, inr, true, none, some, List, [], ◌∷◌, ◌++◌, arith, ◌==◌, ==_iff, ◌&&◌,
  Bool-cases, sym, ap,
}
use mathlib.Core.Path.{subst}
use jp_adopt_core.Models.{Contact}
use jp_adopt_core.Workflow.States.{AdopterState}
use jp_adopt_core.Workflow.Lookup.{adopter_side}
use jp_adopt_core.Workflow.Transition.{Request, update_row, moved}
use jp_adopt_core.Matching.Rows.{Match, is_open}
use jp_adopt_core.Matching.Process.{find_open}
use jp_adopt_core.Decide.Rows.{find_match, find_contact, update_match}
use jp_adopt_core.Decide.Parts.{or_else}

pub find_match-update_match :
    (i : ℕ) (f : Match → Match) (m : Match) (ms : List Match)
    → find_match i ms ≡ some m
    → (f m).id ≡ i
    → find_match i (update_match i f ms) ≡ some (f m)
find_match-update_match i f m [] h e = absurd (ground arith)
find_match-update_match i f m (n ∷ ms) h e = elim (Bool-cases (n.id == i)) [
  | inl q ↦ rw q (
      subst (λ (y : Match). find_match i (f y ∷ ms) ≡ some (f m)) (sym (ap (or_else m) (rw q at h)))
        (rw (e, (==_iff i i).1 refl) refl))
  | inr q ↦ rw q (rw q (find_match-update_match i f m ms (rw q at h) e))
]

pub find_match-append :
    (i : ℕ) (m : Match) (ms rest : List Match)
    → find_match i ms ≡ some m
    → find_match i (ms ++ rest) ≡ some m
find_match-append i m [] rest h = absurd (ground arith)
find_match-append i m (n ∷ ms) rest h = elim (Bool-cases (n.id == i)) [
  | inl q ↦ rw q (rw q at h)
  | inr q ↦ rw q (find_match-append i m ms rest (rw q at h))
]

pub find_open-new :
    (i : ℕ) (m : Match) (ms : List Match)
    → find_open i ms ≡ none
    → m.adopter_interest_id == i && is_open m.status ≡ true
    → find_open i (ms ++ m ∷ []) ≡ some m
find_open-new i m [] h o = rw o refl
find_open-new i m (n ∷ ms) h o =
    elim (Bool-cases (n.adopter_interest_id == i && is_open n.status)) [
      | inl q ↦ absurd (ground (arith, (rw q at h)))
      | inr q ↦ rw q (find_open-new i m ms (rw q at h) o)
    ]

pub find_contact-update_row :
    (q : Request AdopterState) (i v : ℕ) (c : Contact) (cs : List Contact)
    → find_contact i cs ≡ some c
    → find_contact i (update_row i (moved adopter_side q v) cs) ≡ some (moved adopter_side q v c)
find_contact-update_row q i v c [] h = absurd (ground arith)
find_contact-update_row q i v c (n ∷ cs) h = elim (Bool-cases (n.id == i)) [
  | inl e ↦ rw e (rw e (ap (λ y. some (moved adopter_side q v y)) (ap (or_else c) (rw e at h))))
  | inr e ↦ rw e (rw e (find_contact-update_row q i v c cs (rw e at h)))
]

pub find_contact-own :
    (j : ℕ) (c : Contact) (cs : List Contact)
    → find_contact j cs ≡ some c
    → find_contact c.id cs ≡ some c
find_contact-own j c cs h = subst (λ k. find_contact k cs ≡ some c) (sym (go cs h)) h
  where
    go : (cs : List Contact) → find_contact j cs ≡ some c → c.id ≡ j
    go [] h = absurd (ground arith)
    go (n ∷ rest) h = elim (Bool-cases (n.id == j)) [
      | inl e ↦ subst (λ (y : Contact). y.id ≡ j) (ap (or_else c) (rw e at h)) ((==_iff n.id j).0 e)
      | inr e ↦ go rest (rw e at h)
    ]
