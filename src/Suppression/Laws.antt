-- ===== src/Suppression/Laws.antt =====
-- What is suppressed gets no mail, and what is removed is forgotten.
use jp_adopt_core.Prelude.{
  ℕ, String, ◌≡◌, refl, sym, ◌∙◌, ap, Bool, true, false, some, List, [], ◌∷◌, ◌=ₛ◌, in_texts, map,
  =ₛ_iff, =ₛ_refl, Bool-cases, inl, inr, arith,
}
use jp_adopt_core.Text.{Text, Unicode, text_eq}
use jp_adopt_core.Http.{Outcome, done, fail, http_error, raise_unless, ◌>>◌, pure}
use jp_adopt_core.Magic.Rows.{normalize_email}
use jp_adopt_core.Decide.Rows.{has_any}
use jp_adopt_core.Drips.Rows.{Tables, is_open, email_hash}
use jp_adopt_core.Drips.Engine.{is_blocked, exit_enrollment}
use jp_adopt_core.Drips.Tick.{DueStep, Outside, Counted, process_due}
use jp_adopt_core.Suppression.{
  SuppressionEntry, SuppressionCreate, add_to_suppression_list, delete_hash, add_suppression,
  remove_suppression, removed, require_staff, staff_roles,
}

-- The keys of the list, as the drip engine reads them.
abbrev pub hashes : List SuppressionEntry → List String
hashes = map (λ (e : SuppressionEntry). e.email_hash)

in_hashes-add :
    (hash : String) (now : ℕ) (body : SuppressionCreate) (rows : List SuppressionEntry)
    → in_texts hash (hashes (add_to_suppression_list hash now body rows).1) ≡ true
unfolding add_to_suppression_list
in_hashes-add hash now body [] = rw (=ₛ_refl hash)
in_hashes-add hash now body (e ∷ es) = elim (Bool-cases (e.email_hash =ₛ hash)) [
  | inl same ↦
      let s : hash =ₛ e.email_hash ≡ true =
        (=ₛ_iff hash e.email_hash).1 (sym ((=ₛ_iff e.email_hash hash).0 same)) in
      rw (same, s) refl
  | inr other ↦ rw other (ground (arith, in_hashes-add hash now body es))
]

differs :
    (hash : String) (e : SuppressionEntry) (es : List SuppressionEntry)
    → in_texts hash (hashes (e ∷ es)) ≡ false
    → (e.email_hash =ₛ hash ≡ false) × (in_texts hash (hashes es) ≡ false)
differs hash e es h = elim (Bool-cases (e.email_hash =ₛ hash)) [
  | inl same ↦
      let s : hash =ₛ e.email_hash ≡ true =
        (=ₛ_iff hash e.email_hash).1 (sym ((=ₛ_iff e.email_hash hash).0 same)) in
      absurd (ground arith)
  | inr other ↦ (other, ground arith)
]

delete-add :
    (hash : String) (now : ℕ) (body : SuppressionCreate) (rows : List SuppressionEntry)
    → in_texts hash (hashes rows) ≡ false
    → delete_hash hash (add_to_suppression_list hash now body rows).1 ≡ (1, rows)
unfolding add_to_suppression_list delete_hash
delete-add hash now body [] h = rw (=ₛ_refl hash) refl
delete-add hash now body (e ∷ es) h =
    let d = differs hash e es h in rw (d.0, d.0, delete-add hash now body es d.1) refl

delete_unlisted :
    (hash : String) (rows : List SuppressionEntry)
    → in_texts hash (hashes rows) ≡ false
    → delete_hash hash rows ≡ (0, rows)
unfolding delete_hash
delete_unlisted hash [] h = refl
delete_unlisted hash (e ∷ es) h =
    let d = differs hash e es h in rw (d.0, delete_unlisted hash es d.1) refl

added :
    (roles : List String) (u : Unicode) (sha256 : Text → String) (now : ℕ)
    (body : SuppressionCreate)
    → (rows : List SuppressionEntry) (row : SuppressionEntry)
    → (add_suppression roles u sha256 now body rows).0 ≡ done row
    → (add_suppression roles u sha256 now body rows).1
      ≡ (add_to_suppression_list (email_hash u sha256 body.email) now body rows).1
unfolding add_suppression require_staff
added roles u sha256 now body rows row h = go (has_any roles staff_roles) h
  where
    go :
        (b : Bool)
        → ((raise_unless b (http_error 403 "role_required") >> λ rows'.
              let (x, y) =
                add_to_suppression_list (email_hash u sha256 body.email) now body rows' in
              pure x y)
            rows).0
          ≡ done row
        → ((raise_unless b (http_error 403 "role_required") >> λ rows'.
              let (x, y) =
                add_to_suppression_list (email_hash u sha256 body.email) now body rows' in
              pure x y)
            rows).1
          ≡ (add_to_suppression_list (email_hash u sha256 body.email) now body rows).1
    go true g = refl
    go false g = absurd (ground arith)

is_staff :
    (roles : List String) (u : Unicode) (sha256 : Text → String) (now : ℕ)
    (body : SuppressionCreate)
    → (rows : List SuppressionEntry) (row : SuppressionEntry)
    → (add_suppression roles u sha256 now body rows).0 ≡ done row
    → has_any roles staff_roles ≡ true
unfolding add_suppression require_staff
is_staff roles u sha256 now body rows row h = go (has_any roles staff_roles) h
  where
    go :
        (b : Bool)
        → ((raise_unless b (http_error 403 "role_required") >> λ rows'.
              let (x, y) =
                add_to_suppression_list (email_hash u sha256 body.email) now body rows' in
              pure x y)
            rows).0
          ≡ done row
        → b ≡ true
    go true g = refl
    go false g = absurd (ground arith)

removal :
    (roles : List String) (u : Unicode) (sha256 : Text → String) (hash : String)
    → (rows : List SuppressionEntry) → has_any roles staff_roles ≡ true
    → remove_suppression roles u sha256 hash rows
      ≡ removed roles u sha256 (delete_hash hash rows) rows
unfolding remove_suppression require_staff
removal roles u sha256 hash rows staff = rw staff refl

blocked_exits :
    (out : Outside) (tick : ℕ) (t : Tables) (d : DueStep)
    → is_blocked t d.contact.email_normalized ≡ true
    → is_open d.enrollment.state ≡ true
    → let (counted, e, events) = process_due out tick t d in
      (counted ≡ Counted.exited) × (is_open e.state ≡ false)
unfolding process_due exit_enrollment
blocked_exits out tick t d b o = ground arith

-- Once an address was added by staff, a claimed step of an open enrollment to any spelling of it, with
-- the same normal form, is never sent, deferred or failed: it exits the enrollment.
pub suppressed_exits :
    (roles : List String) (now : ℕ) (body : SuppressionCreate) (rows : List SuppressionEntry)
    → (row : SuppressionEntry) (out : Outside) (tick : ℕ) (t : Tables) (d : DueStep)
    → (address : Text) → (add_suppression roles t.unicode t.sha256 now body rows).0 ≡ done row
    → t.suppressed ≡ hashes (add_suppression roles t.unicode t.sha256 now body rows).1
    → d.contact.email_normalized ≡ some address
    → text_eq address [] ≡ false
    → normalize_email t.unicode address ≡ normalize_email t.unicode body.email
    → is_open d.enrollment.state ≡ true
    → let (counted, e, events) = process_due out tick t d in
      (counted ≡ Counted.exited) × (is_open e.state ≡ false)
suppressed_exits roles now body rows row out tick t d address ok listed to proper same open_ =
    let listed' : in_texts (email_hash t.unicode t.sha256 address) t.suppressed ≡ true =
      rw (same, listed, added roles t.unicode t.sha256 now body rows row ok)
        (in_hashes-add (email_hash t.unicode t.sha256 body.email) now body rows) in
    let blocked : is_blocked t d.contact.email_normalized ≡ true = rw (to, proper, listed') refl in
    blocked_exits out tick t d blocked open_

-- What staff adds and then removes by its hash leaves the list as it was, if the hash was not listed;
-- and removing it once more is answered by 404.
pub remove-add :
    (roles : List String) (u : Unicode) (sha256 : Text → String) (now : ℕ)
    (body : SuppressionCreate)
    → (rows : List SuppressionEntry) (row : SuppressionEntry)
    → (add_suppression roles u sha256 now body rows).0 ≡ done row
    → in_texts (email_hash u sha256 body.email) (hashes rows) ≡ false
    → let rows' = (add_suppression roles u sha256 now body rows).1 in
      (remove_suppression roles u sha256 (email_hash u sha256 body.email) rows' ≡ (done tt, rows))
      × ((remove_suppression roles u sha256 (email_hash u sha256 body.email) rows).0
          ≡ fail (http_error 404 "suppression_not_found"))
remove-add roles u sha256 now body rows row ok unlisted =
    let staff = is_staff roles u sha256 now body rows row ok in
    let hash = email_hash u sha256 body.email in
    let rows' = (add_suppression roles u sha256 now body rows).1 in
    let gone : delete_hash hash rows' ≡ (1, rows) =
      rw (added roles u sha256 now body rows row ok) (delete-add hash now body rows unlisted) in
    (
      removal roles u sha256 hash rows' staff
          ∙ ap (λ (x : ℕ × List SuppressionEntry). removed roles u sha256 x rows') gone,
      ap (λ (x : Outcome (Unit {0}) × List SuppressionEntry). x.0)
          (removal roles u sha256 hash rows staff
            ∙ ap (λ (x : ℕ × List SuppressionEntry). removed roles u sha256 x rows)
                (delete_unlisted hash rows unlisted)),
    )
