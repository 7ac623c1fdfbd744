-- ===== src/Decide/Access.antt =====
-- Role and scope: who may see and decide a match.
use jp_adopt_core.Prelude.{
  ℕ, String, Bool, true, not, Option, none, some, List, [], ◌∷◌, if◌then◌else◌, ◌&&◌, ◌||◌,
  in_texts, in_ids,
}
use jp_adopt_core.Http.{Handler, ◌>>◌, pure, raise, raise_unless, http_error}
use jp_adopt_core.Matching.Rows.{Match}
use jp_adopt_core.Decide.Rows.{Store, Actor, has_any, visible_org_ids, in_queue, is_triage}

-- `_QUEUE_ROLES`
abbrev pub queue_roles : List String
queue_roles = "staff_admin" ∷ "adoption_manager" ∷ "triage_facilitator" ∷ "facilitator" ∷ []

-- `staff_roles`, and `_OVERRIDE_ROLES`
abbrev pub staff_roles : List String
staff_roles = "staff_admin" ∷ "adoption_manager" ∷ []

-- The loop of `_pick_actor_role`, over the intersection of the roles and the allowed ones.
abbrev pub first_in : List String → List String → List String → Option String
first_in [] roles allowed = none
first_in (c ∷ cs) roles allowed =
    if in_texts c roles && in_texts c allowed then some c else first_in cs roles allowed

-- `_pick_actor_role`; without an overlap it raises outside of the handler's `try`.
unfoldable pub pick_actor_role : List String → List String → Option String
pick_actor_role roles allowed = first_in queue_roles roles allowed

abbrev pub is_member : Actor → Match → List (String × ℕ) → Bool
is_member actor m memberships = in_ids m.facilitator_org_id (visible_org_ids actor.sub memberships)

-- The three checks at the head of `decide_match`.
unfoldable pub check_decide_access : {F : Type 0} → Actor → Match → Handler (Store F) (Unit {0})
check_decide_access actor m db =
    (do
      raise_unless
          (not (in_texts "facilitator" actor.roles && not (has_any actor.roles staff_roles))
            || is_member actor m db.memberships)
          (http_error 403 "org_not_member")
      raise_unless
          (not (
            in_texts "triage_facilitator" actor.roles
            && not (has_any actor.roles staff_roles)
            && not (in_texts "facilitator" actor.roles)
            && not (is_triage m.status)))
          (http_error 403 "role_not_permitted_for_status"))
      db

-- The visibility of one match in `get_match`.
unfoldable pub check_view_access : {F : Type 0} → Actor → Match → Handler (Store F) (Unit {0})
check_view_access actor m db =
    if has_any actor.roles staff_roles
    then pure tt db
    else if in_texts "facilitator" actor.roles
    then raise_unless (is_member actor m db.memberships) (http_error 403 "org_not_member") db
    else if in_texts "triage_facilitator" actor.roles
    then raise_unless (is_triage m.status) (http_error 403 "role_not_permitted_for_status") db
    else raise (http_error 403 "role_required") db

-- The rows that `get_queue` selects for a caller: the open ones within its scope.
abbrev pub in_scope : List String → List ℕ → Match → Bool
in_scope roles org_ids m =
    if has_any roles staff_roles
    then true
    else if in_texts "triage_facilitator" roles
    then is_triage m.status
    else in_ids m.facilitator_org_id org_ids

unfoldable pub queue_rows : List String → List ℕ → List Match → List Match
queue_rows roles org_ids [] = []
queue_rows roles org_ids (m ∷ ms) =
    if in_queue m.status && in_scope roles org_ids m
    then m ∷ queue_rows roles org_ids ms
    else queue_rows roles org_ids ms

-- `get_queue`; the table stands in the order of `recommended_at`.
unfoldable pub get_queue : {F : Type 0} → Actor → Handler (Store F) (List Match)
get_queue actor db =
    (do
      raise_unless (has_any actor.roles queue_roles) (http_error 403 "role_required")
      pure (queue_rows actor.roles (visible_org_ids actor.sub db.memberships) db.tables.matches))
      db
