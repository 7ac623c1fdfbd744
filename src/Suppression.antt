-- ===== src/Suppression.antt =====
-- The suppression list: `add_to_suppression_list` of domain/drips.py, and the endpoints of
-- routers/suppression.py, whose clients have a staff role.
pub mod Laws
use jp_adopt_core.Prelude.{
  ℕ, suc, zero, String, Bool, true, false, Option, none, some, List, [], ◌∷◌, ◌++◌, if◌then◌else◌,
  ◌=ₛ◌, ltb, leb, length, take, map, ◌&&◌,
}
use jp_adopt_core.Text.{Text, Unicode}
use jp_adopt_core.Http.{Handler, ◌>>=◌, ◌>>◌, pure, raise, raise_unless, http_error, gets}
use jp_adopt_core.Decide.Rows.{has_any}
use jp_adopt_core.Drips.Rows.{email_hash}

-- A row of `SuppressionList`; its metadata is serialised JSON.
pub record SuppressionEntry : Type 0 where
  pub email_hash : String
  pub reason : String
  pub suppressed_at : ℕ
  pub source_metadata : Option String

-- `SuppressionCreate`
pub record SuppressionCreate : Type 0 where
  pub email : Text
  pub reason : String
  pub source_metadata : Option String

abbrev pub staff_roles : List String
staff_roles = "staff_admin" ∷ "adoption_manager" ∷ []

abbrev pub new_entry : String → ℕ → SuppressionCreate → SuppressionEntry
new_entry hash now body = record {
  email_hash = hash;
  reason = body.reason;
  suppressed_at = now;
  source_metadata = body.source_metadata;
}

abbrev pub overwrite : SuppressionCreate → SuppressionEntry → SuppressionEntry
overwrite body e = record e { reason = body.reason; source_metadata = body.source_metadata }

-- `add_to_suppression_list`, on the hash of the address: the upsert, and the row.
unfoldable pub add_to_suppression_list :
    String
    → ℕ
    → SuppressionCreate
    → List SuppressionEntry
    → SuppressionEntry × List SuppressionEntry
add_to_suppression_list hash now body [] = (new_entry hash now body, new_entry hash now body ∷ [])
add_to_suppression_list hash now body (e ∷ es) =
    let (row, rest) = add_to_suppression_list hash now body es in
    if e.email_hash =ₛ hash then (overwrite body e, overwrite body e ∷ es) else (row, e ∷ rest)

-- `DELETE … WHERE email_hash = …`, and how many rows it hit.
unfoldable pub delete_hash : String → List SuppressionEntry → ℕ × List SuppressionEntry
delete_hash hash [] = (0, [])
delete_hash hash (e ∷ es) =
    let (n, rest) = delete_hash hash es in
    if e.email_hash =ₛ hash then (suc n, rest) else (n, e ∷ rest)

-- `ORDER BY suppressed_at DESC`
abbrev pub insert_entry : SuppressionEntry → List SuppressionEntry → List SuppressionEntry
insert_entry e [] = e ∷ []
insert_entry e (x ∷ xs) =
    if ltb e.suppressed_at x.suppressed_at then x ∷ insert_entry e xs else e ∷ x ∷ xs

abbrev pub newest_first : List SuppressionEntry → List SuppressionEntry
newest_first [] = []
newest_first (e ∷ es) = insert_entry e (newest_first es)

abbrev pub drop : {A : Type 0} → ℕ → List A → List A
drop zero xs = xs
drop (suc n) [] = []
drop (suc n) (x ∷ xs) = drop n xs

-- The roles of the caller, and the functions that `email_hash` uses.
module _ (roles : List String) (u : Unicode) (sha256 : Text → String) where
  require_staff : Handler (List SuppressionEntry) (Unit {0})
  require_staff = raise_unless (has_any roles staff_roles) (http_error 403 "role_required")

  -- `list_suppression`: a page, and the number of all rows.
  unfoldable pub list_suppression :
      ℕ → ℕ → Handler (List SuppressionEntry) (List SuppressionEntry × ℕ)
  unfolding require_staff
  list_suppression limit offset = do
    require_staff
    raise_unless (leb 1 limit && leb limit 200) (http_error 422 "validation_error")
    gets (λ rows. (take limit (drop offset (newest_first rows)), length rows))

  -- `add_suppression`
  unfoldable pub add_suppression :
      ℕ → SuppressionCreate → Handler (List SuppressionEntry) SuppressionEntry
  unfolding require_staff add_to_suppression_list
  add_suppression now body = do
    require_staff
    (λ rows.
        let (row, rows') = add_to_suppression_list (email_hash u sha256 body.email) now body rows in
        pure row rows')

  abbrev pub removed : ℕ × List SuppressionEntry → Handler (List SuppressionEntry) (Unit {0})
  removed (zero, rest) = raise (http_error 404 "suppression_not_found")
  removed (suc n, rest) = λ _. pure tt rest

  -- `remove_suppression`
  unfoldable pub remove_suppression : String → Handler (List SuppressionEntry) (Unit {0})
  unfolding require_staff delete_hash
  remove_suppression hash = do require_staff; (λ rows. removed (delete_hash hash rows) rows)
