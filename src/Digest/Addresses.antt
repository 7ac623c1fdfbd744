-- ===== src/Digest/Addresses.antt =====
-- Whose addresses the queries of the digest return.
use jp_adopt_core.Prelude.{
  ℕ, String, ◌≡◌, refl, ap, ◌⊎◌, inl, inr, Bool, true, false, Option, none, some, List, [], ◌∷◌,
  ◌==◌, ◌=ₛ◌, ◌&&◌, ◌||◌, in_texts, All, All-map, All-append, All-if, Bool-cases, ==_iff, =ₛ_iff,
  arith,
}
use jp_adopt_core.Models.{Contact}
use jp_adopt_core.Text.{Text}
use jp_adopt_core.Digest.Rows.{StaffProfile, RecipientKind, Tables}
use jp_adopt_core.Digest.Plans.{
  staff_digest_role_names, find_profile, staff_row, staff_rows, staff_recipients, has_sub,
  some_email, email_by_sub, add_address, org_addresses, mem_text, is_nil,
}

abbrev pub Any {ℓ} : {A : Type ℓ} → (A → Type 0) → List A → Type 0
Any P [] = ⊥
Any P (x ∷ xs) = P x ⊎ Any P xs

-- A profile of the subject with this address, active and opted in.
abbrev pub Holds : String → Text → StaffProfile → Type 0
Holds sub address p =
    (p.b2c_subject_id ≡ sub)
    × (p.is_active ≡ true)
    × (p.digest_opt_in ≡ true)
    × (p.email_normalized ≡ address)

-- A role of the digest, of a subject with such a profile.
abbrev pub HasRole : List StaffProfile → Text → String × String → Type 0
HasRole profiles address (sub, role) =
    (in_texts role staff_digest_role_names ≡ true) × Any (Holds sub address) profiles

-- A contact of the subject with this address.
abbrev pub Owns : String → Text → Contact → Type 0
Owns sub address c = (c.b2c_subject_id ≡ some sub) × (c.email_normalized ≡ some address)

-- A membership of the organisation, of a subject with such a contact.
abbrev pub Belongs : List Contact → ℕ → Text → String × ℕ → Type 0
Belongs contacts org_id address (sub, o) = (o ≡ org_id) × Any (Owns sub address) contacts

-- An active, opted-in profile with this address belongs to a subject with a role of the digest.
abbrev pub IsStaff : Tables → Text → Type 0
IsStaff t address = Any (HasRole t.profiles address) t.roles

-- A contact with this address belongs to a subject with a membership of the organisation.
abbrev pub IsMember : Tables → ℕ → Text → Type 0
IsMember t org_id address = Any (Belongs t.contacts org_id address) t.memberships

find_profile-Any :
    (sub : String) (ps : List StaffProfile) (p : StaffProfile)
    → find_profile sub ps ≡ some p
    → Any (Holds sub p.email_normalized) ps
find_profile-Any sub [] p h = absurd (ground arith)
find_profile-Any sub (q ∷ ps) p h =
    elim (Bool-cases (q.b2c_subject_id =ₛ sub && q.is_active && q.digest_opt_in)) [
      | inl e ↦
          let same : q ≡ p = ground arith in
          inl (
            (=ₛ_iff q.b2c_subject_id sub).0 (ground arith),
            ground arith,
            ground arith,
            ap (λ (x : StaffProfile). x.email_normalized) same,
          )
      | inr e ↦ inr (find_profile-Any sub ps p (ground arith))
    ]

-- The rows of the join are of staff.
pub staff_rows-All :
    (profiles : List StaffProfile) (roles : List (String × String))
    → All (λ (r : String × Text). Any (HasRole profiles r.1) roles) (staff_rows profiles roles)
unfolding staff_rows
staff_rows-All profiles [] = tt
staff_rows-All profiles ((sub, role) ∷ rest) =
    All-append _ _ _
      (All-if _ (in_texts role staff_digest_role_names) _ _
        (λ h. row (find_profile sub profiles) refl h) (λ _. tt))
      (All-map _ _ (λ r h. inr h) _ (staff_rows-All profiles rest))
  where
    row :
        (o : Option StaffProfile)
        → find_profile sub profiles ≡ o
        → in_texts role staff_digest_role_names ≡ true
        → All
            (λ (r : String × Text). Any (HasRole profiles r.1) ((sub, role) ∷ rest))
            (staff_row role o)
    row none e h = tt
    row (some p) e h = (inl (h, find_profile-Any sub profiles p e), tt)

pub staff_recipients-All :
    (P : Text → Type 0) (seen : List Text) (rows : List (String × Text))
    → All (λ (r : String × Text). P r.1) rows
    → All (λ (r : Text × RecipientKind). P r.0) (staff_recipients seen rows)
unfolding staff_recipients
staff_recipients-All P seen [] h = tt
staff_recipients-All P seen ((role, email) ∷ rest) h =
    All-if _ (is_nil email || mem_text email seen) _ _ (λ _. staff_recipients-All P seen rest h.1)
      (λ _. (h.0, staff_recipients-All P (email ∷ seen) rest h.1))

some_email-eq :
    (o acc : Option Text) (a : Text) → some_email o acc ≡ some a → (acc ≡ some a) ⊎ (o ≡ some a)
some_email-eq none acc a h = inl h
some_email-eq (some []) acc a h = inl h
some_email-eq (some (c ∷ cs)) acc a h = inr h

email_by_sub-Any :
    (sub : String) (acc : Option Text) (cs : List Contact) (a : Text)
    → email_by_sub sub acc cs ≡ some a
    → (acc ≡ some a) ⊎ Any (Owns sub a) cs
email_by_sub-Any sub acc [] a h = inl h
email_by_sub-Any sub acc (c ∷ cs) a h = elim (Bool-cases (has_sub sub c)) [
  | inl e ↦ elim (email_by_sub-Any sub (some_email c.email_normalized acc) cs a (rw e at h)) [
    | inl g ↦ elim (some_email-eq c.email_normalized acc a g) [
      | inl k ↦ inl k
      | inr k ↦ inr (inl (sub_of c.b2c_subject_id e, k))
    ]
    | inr g ↦ inr (inr g)
  ]
  | inr e ↦ elim (email_by_sub-Any sub acc cs a (rw e at h)) [ inl g ↦ inl g | inr g ↦ inr (inr g) ]
]
  where
    sub_of :
        (o : Option String)
        → (elim o as (λ _. Bool) [ none ↦ false | some s ↦ s =ₛ sub ]) ≡ true
        → o ≡ some sub
    sub_of none k = absurd (ground arith)
    sub_of (some s) k = ap some ((=ₛ_iff s sub).0 k)

pub org_addresses-All :
    (contacts : List Contact) (o : ℕ) (ms : List (String × ℕ))
    → All (λ a. Any (Belongs contacts o a) ms) (org_addresses contacts o ms)
unfolding org_addresses
org_addresses-All contacts o [] = tt
org_addresses-All contacts o ((sub, o') ∷ rest) =
    let later : All (λ a. Any (Belongs contacts o a) ((sub, o') ∷ rest))
        (org_addresses contacts o rest) =
      All-map _ _ (λ a h. inr h) _ (org_addresses-All contacts o rest) in
    All-if _ (o' == o) _ _
      (λ h. add (email_by_sub sub none contacts) refl ((==_iff o' o).0 h) later) (λ _. later)
  where
    add :
        (x : Option Text)
        → email_by_sub sub none contacts ≡ x
        → o' ≡ o
        → All (λ a. Any (Belongs contacts o a) ((sub, o') ∷ rest)) (org_addresses contacts o rest)
        → All
            (λ a. Any (Belongs contacts o a) ((sub, o') ∷ rest))
            (add_address x (org_addresses contacts o rest))
    add none e same later = later
    add (some a) e same later = elim (email_by_sub-Any sub none contacts a e) [
      | inl g ↦ absurd (ground arith)
      | inr g ↦ (inl (same, g), later)
    ]
