-- ===== src/Digest/Run.antt =====
-- One run of the digest: `run_digest` of the worker's tasks/send_daily_digest.py.
use jp_adopt_core.Prelude.{
  ℕ, suc, ◌+◌, Bool, true, false, List, [], ◌∷◌, ◌++◌, if◌then◌else◌, ◌==◌, ◌&&◌, ◌||◌, length,
}
use jp_adopt_core.Digest.Rows.{
  DigestRecipientPlan, RunStatus, pending, sent, failed, empty, DigestRun, DigestRecipient, Tables,
}
use jp_adopt_core.Digest.Plans.{build_digest_for_window}

-- The counts of a run, and the mails that it tried; a run that is skipped tries none.
pub record Report : Type 0 where
  pub skipped : Bool
  pub recipients : ℕ
  pub sent_count : ℕ
  pub failed_count : ℕ
  pub tried : List DigestRecipientPlan

abbrev pub is_final : RunStatus → Bool
is_final sent = true
is_final empty = true
is_final pending = false
is_final failed = false

-- `_digest_already_sent`
unfoldable pub digest_already_sent : ℕ → List DigestRun → Bool
digest_already_sent window_start [] = false
digest_already_sent window_start (r ∷ rs) =
    (r.window_start == window_start && is_final r.status) || digest_already_sent window_start rs

abbrev pub matches_of : List DigestRecipientPlan → ℕ
matches_of [] = 0
matches_of (p ∷ ps) = length p.matches + matches_of ps

abbrev pub run_row : ℕ → ℕ → ℕ → List DigestRecipientPlan → RunStatus → DigestRun
run_row run_id window_start window_end plans status = record {
  id = run_id;
  window_start = window_start;
  window_end = window_end;
  status = status;
  recipient_count = length plans;
  match_count = matches_of plans;
}

-- `deliver` renders and sends a mail; false is an exception.
abbrev pub failures : (DigestRecipientPlan → Bool) → List DigestRecipientPlan → ℕ
failures deliver [] = 0
failures deliver (p ∷ ps) = if deliver p then failures deliver ps else suc (failures deliver ps)

abbrev pub successes : (DigestRecipientPlan → Bool) → List DigestRecipientPlan → ℕ
successes deliver [] = 0
successes deliver (p ∷ ps) = if deliver p then suc (successes deliver ps) else successes deliver ps

abbrev pub recipient_rows :
    ℕ → (DigestRecipientPlan → Bool) → List DigestRecipientPlan → List DigestRecipient
recipient_rows run_id deliver [] = []
recipient_rows run_id deliver (p ∷ ps) =
    record { digest_run_id = run_id; plan = p; delivered = deliver p }
    ∷ recipient_rows run_id deliver ps

-- `sent`, `failed`, or `empty` where nobody is to be told anything.
abbrev pub final_status : (DigestRecipientPlan → Bool) → List DigestRecipientPlan → RunStatus
final_status deliver [] = empty
final_status deliver (p ∷ ps) = if failures deliver (p ∷ ps) == 0 then sent else failed

abbrev pub run_plans :
    ℕ → ℕ → ℕ → (DigestRecipientPlan → Bool) → List DigestRecipientPlan → Tables → Report × Tables
run_plans run_id window_start window_end deliver plans t = (
  record {
    skipped = false;
    recipients = length plans;
    sent_count = successes deliver plans;
    failed_count = failures deliver plans;
    tried = plans;
  },
  record t {
    runs = t.runs ++ run_row run_id window_start window_end plans (final_status deliver plans) ∷ [];
    recipients = t.recipients ++ recipient_rows run_id deliver plans;
  },
)

abbrev pub no_run : Report
no_run = record { skipped = true; recipients = 0; sent_count = 0; failed_count = 0; tried = [] }

-- `run_digest`
unfoldable pub run_digest : ℕ → ℕ → ℕ → (DigestRecipientPlan → Bool) → Tables → Report × Tables
unfolding digest_already_sent build_digest_for_window
run_digest run_id window_start window_end deliver t =
    if digest_already_sent window_start t.runs
    then (no_run, t)
    else run_plans run_id window_start window_end deliver
        (build_digest_for_window t window_start window_end) t
