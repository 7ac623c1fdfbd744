-- ===== src/Lib.antt =====
-- jp_adopt_core: a verification library for the core of the JP ADOPT CRM.
--
-- The program. A contact adopts a people group, and a facilitating organisation supports it. The
-- API keeps contacts, interests, organisations and matches in PostgreSQL. A contact's adopter and
-- facilitator status move through two state machines (apps/api/src/jp_adopt_api/domain/
-- state_machine.py); each move takes an optimistic lock, writes an audit row, and puts an event in
-- a transactional outbox. Bulk imports suppress the single events and write one summary
-- (outbox_suppression.py). Matching (domain/matching.py) scores the organisations for each
-- interest of a contact and records one recommendation, or routes the interest to triage. The
-- worker delivers the outbox's events to the drip engine (domain/drips.py), which enrolls contacts
-- in mail campaigns; its send task (apps/worker/src/jp_adopt_worker/tasks/send_drip_step.py)
-- claims, sends and advances. Staff and facilitators decide a match at an endpoint
-- (routers/matches.py): accept it, send it back, or route it elsewhere, with the organisation's
-- capacity as a counter. The worker posts the outbox to a webhook
-- (apps/worker/src/jp_adopt_worker/outbox_delivery.py). Magic links sign users in (auth_magic.py,
-- routers/auth_magic_link.py). Submissions come in at an endpoint with idempotency keys
-- (routers/intake.py), from importers that call its functions, and from staff
-- (routers/manual_contacts.py). The worker mails a daily digest of new matches (domain/digest.py,
-- tasks/send_daily_digest.py) and purges old rows (worker_settings.py); staff keep a list of
-- suppressed addresses (routers/suppression.py). The ETL (apps/etl/src/jp_adopt_etl) imports
-- contacts from Disciple.Tools, maps their statuses (mappers/status.py) and merges records
-- (reconcile/track_a_merge.py).
--
-- The files.
-- - Prelude: Boolean tests and the conditional, lists over the native numbers, `All`.
-- - Models: the columns of `Contact` and `TransitionAudit` (models.py) that the modelled code
--   touches.
-- - Outbox: `emit_outbox` and `outbox_suppressed`. `Session` holds the tables a transaction sees
--   and the context variable `_active`; a scope is a function of its block. Outbox.Scope has its
--   laws.
-- - Workflow: States (the enums), Tables (the transition tables, entry by entry), Lookup
--   (`_lookup_*_spec` and `available_transitions`; a `Side` holds the arguments in which the two
--   sides differ) and Transition (`_transition_generic` as an action on the session and the
--   caller's contact object, with the exceptions as results). Available, Policy, Acceptance and
--   Effects have their laws.
-- - Http: request handlers as actions on a state that may raise an HTTPException, the transaction
--   of a request, and `map_state_machine_exception` (domain/state_machine_errors.py). Http.After:
--   what holds when a handler succeeds.
-- - Matching: Rows (models.py), Floats (the arithmetic, a parameter), Filter, Score, Ranking,
--   Process (`_process_interest` and `_insert_match_with_conflict_guard`) and Run
--   (`match_or_route`). Bounds, Order, Audit, Justified and OpenMatches have their laws.
-- - Decide: `get_queue`, the checks of `get_match`, and `decide_match` (routers/matches.py). Rows
--   (the `Store` that a request works on), Access, Capacity, Parts (the values written) and
--   Handler (the three verbs in the order of the code). Steps and Admission say what a success has
--   done and checked; Keeps, Lookups and Targets carry the laws in Invariants, Ledger, Scope and
--   Answers.
-- - Delivery: Batch (`process_outbox_batch` and `drain_outbox`), Drain (its laws), Workers (the
--   same transactions as a step relation on the table, the workers and what the webhook took),
--   Rows, Taken and Settled (laws of all interleavings).
-- - Magic: Rows (the tables and settings) and Link (`request_magic_link`, `claim_magic_link` and
--   the two endpoints). Limit, Claim, Once and RoundTrip have their laws.
-- - Drips: Rows (models.py), Engine (enrollment, exit, advance) and Tick (`claim_due_steps` and
--   `_process_due_steps`). Laws, Enrolls, Exits, Advance and TickLaws have their laws.
-- - Drips.Drain and Drips.OptOut: `drain_drip_enrollments` (worker_settings.py) over the outbox
--   and the drip engine, and what it leaves of an opted-out contact.
-- - TransitionEndpoint: `post_transition` (routers/workflow.py) over the store of Decide; Scope
--   has its law.
-- - Intake: Rows (the `Desk` of tables, the answers, and actions on it), Email (`_EMAIL_SANITY`),
--   Contacts (contact, profile, consents), Process (`process_adoption_payload` and
--   `process_facilitation_payload`), Access (keys and the idempotency rows) and Request
--   (`_handle`). Keeps, Claims, Callers and Served carry the law in Replay; Returns, Outcome and
--   Found those of Refused.
-- - Digest: Rows, Plans (`build_digest_for_window`), Window (the offset, the window, the gate) and
--   Run (`run_digest`). Entitled, over Addresses, Loaded and Reached, and Again have their laws.
-- - Purge: both purge tasks (worker_settings.py). Suppression: `add_to_suppression_list`
--   (domain/drips.py) and the endpoints. ManualContacts: `create_manual_contact`. Each has its
--   laws in its module Laws.
-- - Text: Python texts as lists of code points. Etl.Merge and Etl.Status: the merge rules and the
--   status mappers, with laws in Merge.Fields, Merge.Names, Merge.Winner and Status.Range.
-- - Tests: concrete runs, and every result applied at one.
--
-- Conventions. A UUID is a natural number, and the canonical texts of UUIDs are ordered as the
-- numbers. A timestamp is a number of seconds. What `uuid4` and the clock return is an argument or
-- a counter of the tables. A query is a function of the tables; where it has no ORDER BY, the
-- tables' order stands for the database's. A Python set is walked in the order in which its
-- elements were found. A partial unique index is the test that an insertion makes. Loops run over
-- lists; the fuel of `drain_outbox` is `outbox_batch_size` of the code itself, and that of a purge
-- is enough when it exceeds the number of rows to delete: a batch that is not full ends the loop,
-- and a full one deletes rows. The start and the end of a digest run are left out. Of concurrent
-- requests only the conflicts that the code tests for are modelled, and the interleavings of the
-- delivery. The rows of the outbox stand in the order of `created_at`, the matches in that of
-- `recommended_at`, which is set when a row is inserted, the identities in that of `linked_at`. In
-- the endpoints a failed request rolls its transaction back. The validation of field lengths by
-- the schemas is left out. A row of `ContactProfile` is the list of its columns, and JSON that is
-- only stored is its serialised text. An intake request runs alone: the claim that is lost between
-- the conflict and the lookup, and the errors of the database that are caught and logged, are left
-- out.
--
-- Parameters. `Floats` is Python's float arithmetic; `FloatLaws` are the facts of IEEE 754 on
-- finite numbers that the bounds and the order need. `Unicode` holds the tables behind `isspace`,
-- `lower` and `casefold`, and has no laws. `MatchRun.others` is what other transactions do to the
-- match table between a conflict and the refetch; results about the table ask that it keeps their
-- invariant. `Outside` is the renderer, the mail service and the clock of a tick, and `locked`
-- says which enrollments other workers hold. `sha256` is the function of that name. `accepts` is
-- the webhook's answer, and `others` what other transactions do to the outbox during a POST.
-- `Settings` has SHA-256 and the encoding of a JWT, on code points, as functions without laws. For
-- the intake `Settings` has SHA-256 and functions on texts, and `Codec` the JSON parser with the
-- schemas; `Calendar` gives month and day; `deliver` says whose digest is rendered and sent. The
-- renderer is code of the repository that is not modelled; the other parameters stand for Python,
-- PostgreSQL and services.
--
-- Not modelled. The other HTTP endpoints and the schemas; identity providers and mail clients; the
-- rendering and sanitising of mails; the ETL's orchestrators, sources, other mappers and the
-- reconciliation around the merge rules; migrations; the web client. They are I/O over the
-- database and over services, or parts that this library has not reached.
pub mod Prelude
pub mod Models
pub mod Outbox
pub mod Http
pub mod ManualContacts
pub mod Purge
pub mod Suppression
pub mod Digest
pub mod Intake
pub mod Decide
pub mod Delivery
pub mod Magic
pub mod Workflow
pub mod Matching
pub mod Text
pub mod TransitionEndpoint
pub mod Etl
pub mod Drips
pub mod Tests
