-- ===== src/Digest/Reached.antt =====
-- Every staff member of the digest is reached.
use jp_adopt_core.Prelude.{
  ℕ, String, ◌≡◌, refl, inl, inr, Bool, true, false, some, List, [], ◌∷◌, ◌++◌, ◌||◌, if◌then◌else◌,
  in_texts, map, Bool-cases,
}
use jp_adopt_core.Text.{Text, text_eq, text_eq_iff, text_lt}
use jp_adopt_core.Digest.Rows.{
  StaffProfile, DigestMatch, RecipientKind, DigestRecipientPlan, Tables,
}
use jp_adopt_core.Digest.Addresses.{Any}
use jp_adopt_core.Digest.Plans.{
  staff_digest_role_names, find_profile, staff_rows, staff_recipients, org_ids, staff_plan, planned,
  org_plan, add_org, add_orgs, org_addresses, insert_plan, sort_plans, plans_for, mem_text, is_nil,
}

-- A role of the digest, of a subject with an active, opted-in profile that has an address.
abbrev pub IsReader : List StaffProfile → Text → String × String → Type 0
IsReader profiles address (sub, role) =
    (in_texts role staff_digest_role_names ≡ true)
    × (p : StaffProfile) × (find_profile sub profiles ≡ some p)
    × (p.email_normalized ≡ address)
    × (is_nil address ≡ false)

Any-left : {A : Type 0} (P : A → Type 0) (xs ys : List A) → Any P xs → Any P (xs ++ ys)
Any-left P [] ys h = absurd h
Any-left P (x ∷ xs) ys (inl p) = inl p
Any-left P (x ∷ xs) ys (inr h) = inr (Any-left P xs ys h)

Any-right : {A : Type 0} (P : A → Type 0) (xs ys : List A) → Any P ys → Any P (xs ++ ys)
Any-right P [] ys h = h
Any-right P (x ∷ xs) ys h = inr (Any-right P xs ys h)

abbrev HasAddress : Text → String × Text → Type 0
HasAddress a r = r.1 ≡ a

staff_rows-has :
    (profiles : List StaffProfile) (a : Text) (roles : List (String × String))
    → Any (IsReader profiles a) roles
    → Any (HasAddress a) (staff_rows profiles roles)
unfolding staff_rows
staff_rows-has profiles a [] h = h
staff_rows-has profiles a ((sub, role) ∷ rest) (inl (named, p, found, is, _)) =
    rw (named, found) (inl is)
staff_rows-has profiles a ((sub, role) ∷ rest) (inr h) =
    Any-right (HasAddress a) _ _ (staff_rows-has profiles a rest h)

abbrev IsTo : Text → Text × RecipientKind → Type 0
IsTo a r = r.0 ≡ a

staff_recipients-has :
    (a : Text) (seen : List Text) (rows : List (String × Text))
    → is_nil a ≡ false
    → mem_text a seen ≡ false
    → Any (HasAddress a) rows
    → Any (IsTo a) (staff_recipients seen rows)
unfolding staff_recipients
staff_recipients-has a seen [] proper fresh h = h
staff_recipients-has a seen ((role, email) ∷ rest) proper fresh (inl is) =
    rw (is, proper, fresh) (inl refl)
staff_recipients-has a seen ((role, email) ∷ rest) proper fresh (inr h) =
    elim (Bool-cases (is_nil email || mem_text email seen)) [
      | inl skip ↦ rw skip (staff_recipients-has a seen rest proper fresh h)
      | inr keep ↦ elim (Bool-cases (text_eq email a)) [
        | inl same ↦ rw keep (inl ((text_eq_iff email a).0 same))
        | inr other ↦
            rw keep
              (inr (staff_recipients-has a (email ∷ seen) rest proper (rw (other, fresh) refl) h))
      ]
    ]

module _ (P : DigestRecipientPlan → Type 0) where
  add_org-Any :
      (o : ℕ) (ms : List DigestMatch) (addresses : List Text) (plans : List DigestRecipientPlan)
      → Any P plans
      → Any P (add_org o ms addresses plans)
  unfolding add_org
  add_org-Any o ms [] plans h = h
  add_org-Any o ms (a ∷ rest) plans h = add_org-Any o ms rest _ (grown (planned a plans))
    where
      grown : (b : Bool) → Any P (if b then plans else plans ++ org_plan o ms a ∷ [])
      grown true = h
      grown false = Any-left P plans (org_plan o ms a ∷ []) h

  add_orgs-Any :
      (t : Tables) (ms : List DigestMatch) (os : List ℕ) (plans : List DigestRecipientPlan)
      → Any P plans
      → Any P (add_orgs t ms os plans)
  unfolding add_orgs
  add_orgs-Any t ms [] plans h = h
  add_orgs-Any t ms (o ∷ os) plans h =
      add_orgs-Any t ms os _ (add_org-Any o _ (org_addresses t.contacts o t.memberships) plans h)

  insert_plan-head :
      (p : DigestRecipientPlan) (ps : List DigestRecipientPlan) → P p → Any P (insert_plan p ps)
  insert_plan-head p [] h = inl h
  insert_plan-head p (q ∷ qs) h =
      elim (Bool-cases (text_lt q.recipient_address p.recipient_address)) [
        | inl e ↦ rw e (inr (insert_plan-head p qs h))
        | inr e ↦ rw e (inl h)
      ]

  insert_plan-Any :
      (p : DigestRecipientPlan) (ps : List DigestRecipientPlan)
      → Any P ps
      → Any P (insert_plan p ps)
  insert_plan-Any p [] h = absurd h
  insert_plan-Any p (q ∷ qs) (inl h) =
      elim (Bool-cases (text_lt q.recipient_address p.recipient_address)) [
        | inl e ↦ rw e (inl h)
        | inr e ↦ rw e (inr (inl h))
      ]
  insert_plan-Any p (q ∷ qs) (inr h) =
      elim (Bool-cases (text_lt q.recipient_address p.recipient_address)) [
        | inl e ↦ rw e (inr (insert_plan-Any p qs h))
        | inr e ↦ rw e (inr (inr h))
      ]

  sort_plans-Any : (ps : List DigestRecipientPlan) → Any P ps → Any P (sort_plans ps)
  sort_plans-Any [] h = h
  sort_plans-Any (p ∷ ps) (inl h) = insert_plan-head p (sort_plans ps) h
  sort_plans-Any (p ∷ ps) (inr h) = insert_plan-Any p (sort_plans ps) (sort_plans-Any ps h)

-- A plan for this address with these matches.
abbrev pub IsPlan : Text → List DigestMatch → DigestRecipientPlan → Type 0
IsPlan a ms plan = (plan.recipient_address ≡ a) × (plan.matches ≡ ms)

staff_plans-has :
    (a : Text) (ms : List DigestMatch) (rs : List (Text × RecipientKind))
    → Any (IsTo a) rs
    → Any (IsPlan a ms) (map (staff_plan ms) rs)
staff_plans-has a ms [] h = h
staff_plans-has a ms (r ∷ rs) (inl e) = inl (e, refl)
staff_plans-has a ms (r ∷ rs) (inr h) = inr (staff_plans-has a ms rs h)

-- A reader of the digest has a plan with all matches, if there are any.
pub plans_for-reaches :
    (t : Tables) (a : Text) (m : DigestMatch) (ms : List DigestMatch)
    → Any (IsReader t.profiles a) t.roles
    → is_nil a ≡ false
    → Any (IsPlan a (m ∷ ms)) (plans_for t (m ∷ ms))
plans_for-reaches t a m ms h proper = sort_plans-Any (IsPlan a (m ∷ ms)) _ (
    add_orgs-Any (IsPlan a (m ∷ ms)) t (m ∷ ms) (org_ids [] (m ∷ ms)) _ (
      staff_plans-has a (m ∷ ms) _ (
        staff_recipients-has a [] (staff_rows t.profiles t.roles) proper refl
          (staff_rows-has t.profiles a t.roles h))))
