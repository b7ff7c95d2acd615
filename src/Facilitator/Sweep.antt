-- ===== src/Facilitator/Sweep.antt =====
-- packages/facilitator/src/sweep.ts: the reconciliation sweep. A rule selects its rows first and then
-- goes through them. The executor's kicks are results: the caller passes them on.
pub mod Rules
use hundi.Common.{
  ℕ, ◌+◌, ◌-◌, ◌/◌, ℤ, pos, Bool, true, false, not, ◌&&◌, ◌||◌, Option, none, some, List, [], ◌∷◌,
  ◌++◌, Text, text, any, find, filter, count, length, leb, ltb, min_int, is_past, is_some, ◌===◌,
  if◌then◌else◌,
}
use hundi.Core.Value.{Value, str, obj, end, field, get, is_text, int_of}
use hundi.Core.Crypto.{Crypto}
use hundi.Core.Mandate.{IntentMandate}
use hundi.Facilitator.Db.{
  SettlementState, AttemptState, SettlementRow, AttemptRow, MandateRow, IdempotencyRow, LedgerRow,
  Db,
}
use hundi.Facilitator.Action.{Action, pure, gets, modify, tx, moves, each, ◌>>=◌, ◌>>◌}
use hundi.Facilitator.Table.{update}
use hundi.Facilitator.StateMachine.{
  is_state, is_active, is_attempt_state, in_state, transition_settlement, transition_attempt,
}
use hundi.Facilitator.MandateRepo.{get_mandate_row}
use hundi.Facilitator.SettlementService.{log_event}
use hundi.Facilitator.Reconcile.{Reply, RazorpayPayment}
use hundi.Facilitator.Reconcile.Order.{reconcile_by_attempt}
use hundi.Facilitator.Executor.Queue.{Kick, execute, resume_settling}

-- Times in milliseconds, as they are configured.
pub record SweepTtls : Type 0 where
  pub attempt_stale_ms : ℕ
  pub transient_stale_ms : ℕ
  pub verified_stale_ms : ℕ
  pub approval_ttl_ms : ℕ
  pub approved_stale_ms : ℕ
  pub settling_no_attempt_stale_ms : ℕ
  pub idempotency_lock_stale_ms : ℕ
  pub max_approved_kicks : ℕ

abbrev pub default_sweep_ttls : SweepTtls
default_sweep_ttls = record {
  attempt_stale_ms = 90000;
  transient_stale_ms = 60000;
  verified_stale_ms = 900000;
  approval_ttl_ms = 1800000;
  approved_stale_ms = 60000;
  settling_no_attempt_stale_ms = 60000;
  idempotency_lock_stale_ms = 300000;
  max_approved_kicks = 3;
}

pub record SweepReport : Type 0 where
  pub attempts_polled : ℕ
  pub attempts_failed_no_artifact : ℕ
  pub transients_abandoned : ℕ
  pub verified_abandoned : ℕ
  pub approvals_expired : ℕ
  pub approved_kicked : ℕ
  pub approved_abandoned : ℕ
  pub settling_resumed : ℕ
  pub idempotency_locks_cleared : ℕ

pub record Swept : Type 0 where
  pub report : SweepReport
  pub kicks : List Kick

-- `t < secondsAgo(now, ms)`, with the subtraction on the other side.
abbrev pub is_stale : (now ms t : ℕ) → Bool
is_stale now ms t = ltb (t + ms / 1000) now

-- The same test on a column that may be NULL.
abbrev pub is_stale_at : (now ms : ℕ) → Option ℕ → Bool
is_stale_at now ms none = false
is_stale_at now ms (some t) = is_stale now ms t

abbrev pub in_state_since : SettlementState → (now ms : ℕ) → SettlementRow → Bool
in_state_since s now ms row = is_state row.state s && is_stale_at now ms (row.entered_at s)

abbrev pub or_zero : Option ℕ → ℕ
or_zero none = 0
or_zero (some t) = t

abbrev pub is_transient : (now ms : ℕ) → SettlementRow → Bool
is_transient now ms row =
    (is_state row.state SettlementState.created || is_state row.state SettlementState.verifying)
    && is_stale_at now ms (row.entered_at SettlementState.created)

-- The outcome of a rule on one row.
pub data AttemptSwept : Type 0 where
  polled failed_now left : AttemptSwept

pub data ApprovedSwept : Type 0 where
  abandoned raced : ApprovedSwept
  kicked : (settlement_id : Text) → ApprovedSwept

abbrev pub is_polled : AttemptSwept → Bool
is_polled polled = true
is_polled _ = false

abbrev pub is_failed_now : AttemptSwept → Bool
is_failed_now failed_now = true
is_failed_now _ = false

abbrev pub is_abandoned : ApprovedSwept → Bool
is_abandoned abandoned = true
is_abandoned _ = false

abbrev pub kicks_of : List ApprovedSwept → List Kick
kicks_of [] = []
kicks_of (kicked id ∷ rest) = execute id ∷ kicks_of rest
kicks_of (_ ∷ rest) = kicks_of rest

abbrev pub resumes_of : List (Option Text) → List Kick
resumes_of [] = []
resumes_of (some id ∷ rest) = resume_settling id ∷ resumes_of rest
resumes_of (none ∷ rest) = resumes_of rest

abbrev pub is_true : Bool → Bool
is_true b = b

abbrev pub expiry_of : Option MandateRow → Option ℤ
expiry_of none = none
expiry_of (some m) = some (int_of (IntentMandate.expires_at m.intent))

abbrev pub is_expired : ℕ → Option ℤ → Bool
is_expired now none = false
is_expired now (some z) = is_past now z

abbrev pub is_flag_for : (settlement_id reason : Text) → LedgerRow → Bool
is_flag_for settlement_id reason row =
    (row.event_type === text "reconciliation_flagged")
    && (is_id row.settlement_id && is_text (get (text "reason") row.payload) reason)
  where
    is_id : Option Text → Bool
    is_id none = false
    is_id (some id) = id === settlement_id

unfoldable pub reconciliation_flagged_for : (settlement_id reason : Text) → Db → Bool
reconciliation_flagged_for settlement_id reason db =
    any (is_flag_for settlement_id reason) db.ledger

abbrev pub is_stale_lock : (now ms : ℕ) → IdempotencyRow → Bool
is_stale_lock now ms row = not (is_some row.response_status) && is_stale_at now ms row.locked_at
