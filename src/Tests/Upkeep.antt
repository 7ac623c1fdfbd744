-- ===== src/Tests/Upkeep.antt =====
-- A purge of the idempotency keys, and an address that is suppressed and released.
use jp_adopt_core.Prelude.{◌≡◌, refl, ◌==◌, String, true, none, some, List, [], ◌∷◌, arith}
use jp_adopt_core.Text.{Text, Unicode, codes}
use jp_adopt_core.Http.{done, fail, http_error}
use jp_adopt_core.Intake.Rows.{ApiIdempotencyKey, completed}
use jp_adopt_core.Intake.Access.{find_claim}
use jp_adopt_core.Purge.{count, is_dead_key, purge_idempotency_keys}
use jp_adopt_core.Purge.Laws.{purge_keeps_replays}
use jp_adopt_core.Suppression.{
  SuppressionCreate, new_entry, add_suppression, remove_suppression, add_to_suppression_list,
}
use jp_adopt_core.Suppression.Laws.{remove-add}

abbrev key_row : ApiIdempotencyKey
key_row = record {
  api_key_id = codes "k";
  key = codes "i";
  request_hash = codes "h";
  status_code = some 201;
  response_body = none;
  state = completed;
  created_at = 100;
  completed_at = some 100;
  expires_at = 86500;
}

purge_keeps_replays_example :
    let (rows', ended) = purge_idempotency_keys 5 20000 (key_row ∷ []) in
    (ended ≡ true)
    × (find_claim (codes "k") (codes "i") rows' ≡ some key_row)
    × (count (is_dead_key 20000) rows' ≡ 0)
purge_keeps_replays_example =
    purge_keeps_replays 5 20000 (codes "k") (codes "i") key_row (key_row ∷ []) (omega arith) refl
      refl (omega arith)

abbrev unwanted : SuppressionCreate
unwanted = record { email = codes "a@b.c"; reason = "manual"; source_metadata = none }

abbrev staff : List String
staff = "staff_admin" ∷ []

abbrev letters : Unicode
letters = record { is_space = λ c. c == 32; lower = λ t. t; casefold = λ t. t }

abbrev hash_of : Text → String
hash_of t = "h1"

added_ok :
    (add_suppression staff letters hash_of 9 unwanted []).0 ≡ done (new_entry "h1" 9 unwanted)
unfolding add_suppression add_to_suppression_list
added_ok = refl

remove-add_example :
    let rows' = (add_suppression staff letters hash_of 9 unwanted []).1 in
    (remove_suppression staff letters hash_of "h1" rows' ≡ (done tt, []))
    × ((remove_suppression staff letters hash_of "h1" []).0
        ≡ fail (http_error 404 "suppression_not_found"))
remove-add_example =
    remove-add staff letters hash_of 9 unwanted [] (new_entry "h1" 9 unwanted) added_ok refl
