-- ===== src/Intake/Request.antt =====
-- A request at one of the two endpoints: `_handle` of routers/intake.py, with the reading of the body
-- and the answers.
use jp_adopt_core.Prelude.{
  ℕ, String, Option, none, some, List, [], ◌∷◌, ◌++◌, ◌⊎◌, inl, inr, if◌then◌else◌, ◌=ₛ◌, ltb,
  length,
}
use jp_adopt_core.Text.{Text}
use jp_adopt_core.Intake.Rows.{
  Fields, success, error, Response, Domain, adoption, facilitation, Submission, Import, Fresh,
  Settings, Codec, Desk, Escape, invalid, escaped, Result, ok, err, Action,
}
use jp_adopt_core.Intake.Process.{
  IntakeOutcome, process_adoption_payload, process_facilitation_payload,
}
use jp_adopt_core.Intake.Access.{
  Caller, Identity, nobody, label, raised, authenticate, is_closed, find_claim, new_claim, collide,
  finalize,
}

-- `INTAKE_MAX_BODY_BYTES`
abbrev pub intake_max_body_bytes : ℕ
intake_max_body_bytes = 1048576

pub record Request : Type 0 where
  pub domain : Domain
  pub caller : Caller
  pub idempotency_key : Option Text
  pub raw : Text

-- What the framework sends: a response, or the failure of the handler.
pub data Answer : Type 0 where
  reply : Response → Answer
  crash : Escape → Answer

-- `_error_response`
abbrev pub error_response : ℕ → String → ℕ → Option String → Option Fields → Option ℕ → Response
error_response status_code code request_id message fields max_bytes = record {
  status_code = status_code;
  body = error code request_id message fields max_bytes;
}

-- `_success_response`
abbrev pub success_response : ℕ → ℕ → IntakeOutcome → Response
success_response status_code request_id o = record {
  status_code = status_code;
  body = success o.submission_id request_id o.contact_id o.interest_ids;
}

abbrev pub no_import : ℕ → Import
no_import request_id = record {
  request_id = some request_id;
  override_created_at = none;
  source_system = none;
  source_id = none;
}

abbrev pub process : Settings → Fresh → Domain → Submission → Action IntakeOutcome
process cfg fresh adoption p = process_adoption_payload cfg (no_import fresh.request_id) fresh p
process cfg fresh facilitation p =
    process_facilitation_payload cfg (no_import fresh.request_id) fresh p

-- `_process_adoption` and `_process_facilitation`: what is written before a refusal stays written.
abbrev pub respond : ℕ → Result IntakeOutcome → Answer
respond request_id (ok o) = reply (success_response 201 request_id o)
respond request_id (err (invalid message fields)) =
    reply (error_response 400 "validation_failed" request_id message (some fields) none)
respond request_id (err (escaped e)) = crash e

-- `_read_raw_body`: why a body is refused unread.
abbrev pub read_raw_body : ℕ → Text → Option Response
read_raw_body request_id [] = some (
    error_response 400 "validation_failed" request_id none
      (some (("_root", "Empty request body" ∷ []) ∷ [])) none)
read_raw_body request_id (c ∷ cs) =
    if ltb intake_max_body_bytes (length (c ∷ cs))
    then some
        (error_response 413 "payload_too_large" request_id none none (some intake_max_body_bytes))
    else none

-- `".".join(…) or "_root"`
abbrev pub join_path : Settings → List String → String
join_path cfg [] = ""
join_path cfg (p ∷ []) = p
join_path cfg (p ∷ q ∷ qs) = cfg.concat p (cfg.concat "." (join_path cfg (q ∷ qs)))

abbrev pub path_of : Settings → List String → String
path_of cfg loc = let path = join_path cfg loc in if path =ₛ "" then "_root" else path

-- `out.setdefault(path, []).append(msg)`
abbrev pub add_message : String → String → Fields → Fields
add_message path msg [] = (path, msg ∷ []) ∷ []
add_message path msg ((p, msgs) ∷ rest) =
    if p =ₛ path then (p, msgs ++ msg ∷ []) ∷ rest else (p, msgs) ∷ add_message path msg rest

abbrev pub zod_from : Settings → Fields → List (List String × String) → Fields
zod_from cfg out [] = out
zod_from cfg out ((loc, msg) ∷ errs) = zod_from cfg (add_message (path_of cfg loc) msg out) errs

-- `_zod_like_errors`
unfoldable pub zod_like_errors : Settings → List (List String × String) → Fields
zod_like_errors cfg errs = zod_from cfg [] errs

-- `if not idempotency_key`
abbrev pub given : Option Text → Option Text
given none = none
given (some []) = none
given (some (c ∷ cs)) = some (c ∷ cs)

-- A request that is ready to claim its key.
pub record Ticket : Type 0 where
  pub api_key_id : Text
  pub key : Text
  pub payload : Submission

-- A response is cached and committed with the tables `d`; an exception rolls back.
abbrev pub close_claim : Ticket → Fresh → Desk → Desk → Answer → Answer × Desk
close_claim t fresh before d (reply a) =
    (reply a, record d { idempotency = finalize t.api_key_id t.key fresh.now a d.idempotency })
close_claim t fresh before d (crash e) = (crash e, before)

module _ {J : Type 0} (codec : Codec J) (cfg : Settings) where
  abbrev pub validate_json : ℕ → Domain → Option J → Submission ⊎ Response
  validate_json request_id domain none = inr (
      error_response 400 "validation_failed" request_id none
        (some (("_root", "Malformed JSON" ∷ []) ∷ [])) none)
  validate_json request_id domain (some j) = elim (codec.validate domain j) [
    | inl p ↦ inl p
    | inr errs ↦ inr (
        error_response 400 "validation_failed" request_id none (some (zod_like_errors cfg errs))
          none)
  ]

  -- The body, read, parsed and validated.
  abbrev pub read_payload : ℕ → Domain → Text → Submission ⊎ Response
  read_payload request_id domain raw = elim (read_raw_body request_id raw) [
    | some r ↦ inr r
    | none ↦ validate_json request_id domain (codec.loads raw)
  ]

  abbrev pub with_payload : Text → Text → Submission ⊎ Response → Ticket ⊎ Answer
  with_payload api_key_id key (inl p) =
      inl (record { api_key_id = api_key_id; key = key; payload = p })
  with_payload api_key_id key (inr r) = inr (reply r)

  abbrev pub with_key : ℕ → Request → Text → Option Text → Ticket ⊎ Answer
  with_key request_id req api_key_id none =
      inr (reply (error_response 400 "idempotency_required" request_id none none none))
  with_key request_id req api_key_id (some key) =
      with_payload api_key_id key (read_payload request_id req.domain req.raw)

  abbrev pub with_identity : ℕ → Request → Identity → Ticket ⊎ Answer
  with_identity request_id req nobody =
      inr (reply (error_response 401 "unauthorized" request_id none none none))
  with_identity request_id req (raised e) = inr (crash e)
  with_identity request_id req (label api_key_id) =
      with_key request_id req api_key_id (given req.idempotency_key)

  -- The checks before the claim: a ticket, or the early answer.
  unfoldable pub admit : Request → Fresh → Desk → Ticket ⊎ Answer
  unfolding authenticate zod_like_errors
  admit req fresh d =
      if is_closed cfg d
      then inr (
          reply (
            error_response 503 "intake_disabled" fresh.request_id
              (some "Intake endpoint is not configured.") none none))
      else with_identity fresh.request_id req (authenticate cfg fresh.now req.caller d).0

  -- The answer and the commit of a processed submission.
  abbrev pub commit_claim : Ticket → Fresh → Desk → Result IntakeOutcome × Desk → Answer × Desk
  commit_claim t fresh before (r, d) = close_claim t fresh before d (respond fresh.request_id r)

  -- The tables with the use of the key recorded and the row pending.
  abbrev pub claimed : Request → Ticket → Fresh → Desk → Desk
  claimed req t fresh d =
      let d' = (authenticate cfg fresh.now req.caller d).1 in
      record d' {
        idempotency =
            d'.idempotency ++ new_claim t.api_key_id t.key (cfg.sha256 req.raw) fresh.now ∷ [];
      }

  -- `_claim_idempotency_key` and what follows. A key that is taken rolls everything back.
  abbrev pub run_ticket : Request → Fresh → Desk → Ticket → Answer × Desk
  run_ticket req fresh d t = elim (find_claim t.api_key_id t.key d.idempotency) [
    | some existing ↦ (reply (collide fresh.request_id (cfg.sha256 req.raw) existing), d)
    | none ↦ commit_claim t fresh d (process cfg fresh req.domain t.payload (claimed req t fresh d))
  ]

  -- `_handle`
  unfoldable pub handle : Request → Fresh → Desk → Answer × Desk
  unfolding admit collide
  handle req fresh d = elim (admit req fresh d) [
    | inl t ↦ run_ticket req fresh d t
    | inr a ↦ (a, d)
  ]
