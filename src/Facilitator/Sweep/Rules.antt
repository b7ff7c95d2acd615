-- ===== src/Facilitator/Sweep/Rules.antt =====
-- packages/facilitator/src/sweep.ts: each rule of the sweep, and one run of them all.
use hundi.Common.{
  ℕ, ◌+◌, ◌/◌, Bool, true, false, not, ◌&&◌, ◌||◌, Option, none, some, List, [], ◌++◌, Text, text,
  any, filter, count, length, leb, min_int, is_past, ◌===◌, if◌then◌else◌,
}
use hundi.Core.Value.{str, obj, end, field, int_of}
use hundi.Core.Crypto.{Crypto}
use hundi.Core.Mandate.{IntentMandate}
use hundi.Facilitator.Db.{SettlementState, AttemptState, SettlementRow, AttemptRow, MandateRow}
use hundi.Facilitator.Action.{Action, pure, gets, modify, tx, moves, each, ◌>>=◌, ◌>>◌}
use hundi.Facilitator.Table.{update}
use hundi.Facilitator.StateMachine.{
  is_state, is_active, is_attempt_state, in_state, transition_settlement, transition_attempt,
}
use hundi.Facilitator.MandateRepo.{get_mandate_row}
use hundi.Facilitator.SettlementService.{log_event}
use hundi.Facilitator.Reconcile.{Reply, RazorpayPayment}
use hundi.Facilitator.Reconcile.Order.{reconcile_by_attempt}
use hundi.Facilitator.Sweep.{
  SweepTtls, Swept, is_stale, in_state_since, or_zero, is_transient, AttemptSwept, ApprovedSwept,
  is_polled, is_failed_now, is_abandoned, kicks_of, resumes_of, is_true, expiry_of, is_expired,
  reconciliation_flagged_for, is_stale_lock, polled, left, abandoned, raced, kicked,
}

unfoldable pub sweep_stale_idempotency_locks : SweepTtls → (now : ℕ) → Action ℕ
sweep_stale_idempotency_locks ttls now = do
  cleared ←
      gets (λ db. count (is_stale_lock now ttls.idempotency_lock_stale_ms) db.idempotency_keys)
  modify (λ db. record db {
    idempotency_keys =
        filter (λ row. not (is_stale_lock now ttls.idempotency_lock_stale_ms row))
          db.idempotency_keys;
  })
  pure cleared

-- The UPDATE of `kick_count`, which changes nothing if the settlement has moved on.
unfoldable pub bump_kicks : (settlement_id : Text) → Action Bool
bump_kicks settlement_id = do
  bumped ← gets (λ db. any (in_state settlement_id SettlementState.approved) db.settlements)
  modify (λ db. record db {
    settlements =
        update (in_state settlement_id SettlementState.approved)
          (λ row. record row { kick_count = row.kick_count + 1 }) db.settlements;
  })
  pure bumped

module _ (crypto : Crypto) where
  -- What follows the move to `abandoned`, if the settlement moved.
  unfoldable pub log_abandoned : (id event_type reason : Text) → (moved : Bool) → Action Bool
  log_abandoned id event_type reason false = pure false
  log_abandoned id event_type reason true = do
    log_event crypto id event_type (text "facilitator")
        (obj (field (text "reason") (str reason) end))
    pure true

  unfoldable pub abandon_settlement :
      (id : Text) → (from : SettlementState) → (event_type reason : Text) → Action Bool
  abandon_settlement id from event_type reason = tx (do
    moved ← moves (transition_settlement id from SettlementState.abandoned none)
    log_abandoned id event_type reason moved)

  -- What follows the move to `failed`, if the attempt moved.
  unfoldable pub log_no_artifact : AttemptRow → (moved : Bool) → Action Bool
  log_no_artifact attempt false = pure false
  log_no_artifact attempt true = do
    log_event crypto attempt.settlement_id (text "payment_failed") (text "facilitator") (
        obj (
          field (text "attempt_id") (str attempt.id)
            (field (text "reason") (str (text "no_provider_artifact_stale")) end)))
    pure true

  -- A stale attempt with nothing to poll.
  unfoldable pub fail_no_artifact : AttemptRow → Action AttemptSwept
  fail_no_artifact attempt =
      if not (is_attempt_state attempt.state AttemptState.initiated) then pure left else do
        failed ← tx (do
          moved ← moves (transition_attempt attempt.id AttemptState.initiated AttemptState.failed)
          log_no_artifact attempt moved)
        pure (if failed then AttemptSwept.failed_now else left)

  -- `payments` and `reply` answer the reconciliation of the attempt.
  abbrev pub sweep_ordered :
      (payments : Text → Reply (List RazorpayPayment))
      → (reply : Text → Reply Text) → AttemptRow
      → (provider_order_id : Option Text) → Action AttemptSwept
  sweep_ordered payments reply attempt none = fail_no_artifact attempt
  sweep_ordered payments reply attempt (some []) = fail_no_artifact attempt
  sweep_ordered payments reply attempt (some order) = do
    _ ← reconcile_by_attempt crypto attempt.id (payments attempt.id) (reply attempt.id)
    pure polled

  unfoldable pub sweep_attempt :
      (payments : Text → Reply (List RazorpayPayment))
      → (reply : Text → Reply Text) → AttemptRow
      → Action AttemptSwept
  sweep_attempt payments reply attempt =
      sweep_ordered payments reply attempt attempt.provider_order_id

  unfoldable pub sweep_stale_attempts :
      SweepTtls
      → (now : ℕ) → (payments : Text → Reply (List RazorpayPayment)) → (reply : Text → Reply Text)
      → Action (List AttemptSwept)
  sweep_stale_attempts ttls now payments reply = do
    stale ← gets (λ db.
        filter (λ a. is_active a.state && is_stale now ttls.attempt_stale_ms a.created_at)
          db.attempts)
    each (sweep_attempt payments reply) stale

  unfoldable pub sweep_transient_settlements : SweepTtls → (now : ℕ) → Action (List Bool)
  sweep_transient_settlements ttls now = do
    rows ← gets (λ db. filter (is_transient now ttls.transient_stale_ms) db.settlements)
    each
        (λ row.
          abandon_settlement row.id row.state (text "settlement_abandoned")
            (text "stranded_transient"))
        rows

  unfoldable pub sweep_stale_verified : SweepTtls → (now : ℕ) → Action (List Bool)
  sweep_stale_verified ttls now = do
    rows ← gets (λ db.
        filter (in_state_since SettlementState.verified now ttls.verified_stale_ms) db.settlements)
    each
        (λ row.
          abandon_settlement row.id SettlementState.verified (text "settlement_abandoned")
            (text "verified_timeout"))
        rows

  abbrev pub expire_approval :
      SweepTtls → (now : ℕ) → SettlementRow → Option MandateRow → Action Bool
  expire_approval ttls now row none = pure false
  expire_approval ttls now row (some m) =
      let fixed_expiry =
        or_zero (row.entered_at SettlementState.pending_approval) + ttls.approval_ttl_ms / 1000 in
      if not (is_past now (min_int fixed_expiry (int_of (IntentMandate.expires_at m.intent))))
      then pure false
      else abandon_settlement row.id SettlementState.pending_approval (text "approval_expired")
          (text "approval_timeout")

  unfoldable pub sweep_approval : SweepTtls → (now : ℕ) → SettlementRow → Action Bool
  sweep_approval ttls now row = do
    registered ← gets (λ db. get_mandate_row db row.mandate_id)
    expire_approval ttls now row registered

  unfoldable pub sweep_expired_approvals : SweepTtls → (now : ℕ) → Action (List Bool)
  sweep_expired_approvals ttls now = do
    rows ←
        gets
          (λ db. filter (λ row. is_state row.state SettlementState.pending_approval) db.settlements)
    each (sweep_approval ttls now) rows

  -- A settlement whose mandate has expired, or that has been kicked often enough, is given up.
  unfoldable pub give_up_or_kick :
      SweepTtls → SettlementRow → (mandate_expired : Bool) → Action ApprovedSwept
  give_up_or_kick ttls row mandate_expired =
      if mandate_expired || leb ttls.max_approved_kicks row.kick_count
      then (do
        gone ←
            abandon_settlement row.id SettlementState.approved (text "settlement_abandoned")
              (if mandate_expired then text "mandate_expired" else text "kick_limit_exceeded")
        pure (if gone then abandoned else raced))
      else (do bumped ← bump_kicks row.id; pure (if bumped then kicked row.id else raced))

  unfoldable pub sweep_approved : SweepTtls → (now : ℕ) → SettlementRow → Action ApprovedSwept
  sweep_approved ttls now row = do
    registered ← gets (λ db. get_mandate_row db row.mandate_id)
    give_up_or_kick ttls row (is_expired now (expiry_of registered))

  unfoldable pub sweep_stale_approved : SweepTtls → (now : ℕ) → Action (List ApprovedSwept)
  sweep_stale_approved ttls now = do
    rows ← gets (λ db.
        filter (in_state_since SettlementState.approved now ttls.approved_stale_ms) db.settlements)
    each (sweep_approved ttls now) rows

  -- The entry is written once for each settlement.
  unfoldable pub flag_once : (settlement_id : Text) → Action (Unit {0})
  flag_once settlement_id = do
    flagged ← gets (reconciliation_flagged_for settlement_id (text "settling_no_active_attempt"))
    if flagged
        then pure tt
        else tx (
            log_event crypto settlement_id (text "reconciliation_flagged") (text "facilitator")
              (obj (field (text "reason") (str (text "settling_no_active_attempt")) end)))

  -- The settlement to resume, if no attempt is live.
  unfoldable pub sweep_settling : SettlementRow → Action (Option Text)
  sweep_settling row = do
    active ← gets (λ db. any (λ a. (a.settlement_id === row.id) && is_active a.state) db.attempts)
    if active then pure none else do flag_once row.id; pure (some row.id)

  unfoldable pub sweep_stuck_settling : SweepTtls → (now : ℕ) → Action (List (Option Text))
  sweep_stuck_settling ttls now = do
    rows ← gets (λ db.
        filter (in_state_since SettlementState.settling now ttls.settling_no_attempt_stale_ms)
          db.settlements)
    each sweep_settling rows

  -- One run of every rule.
  unfoldable pub run_sweep :
      SweepTtls
      → (now : ℕ) → (payments : Text → Reply (List RazorpayPayment)) → (reply : Text → Reply Text)
      → Action Swept
  run_sweep ttls now payments reply = do
    attempts ← sweep_stale_attempts ttls now payments reply
    transients ← sweep_transient_settlements ttls now
    verified ← sweep_stale_verified ttls now
    approvals ← sweep_expired_approvals ttls now
    approved ← sweep_stale_approved ttls now
    settling ← sweep_stuck_settling ttls now
    cleared ← sweep_stale_idempotency_locks ttls now
    pure (record {
      report = record {
        attempts_polled = count is_polled attempts;
        attempts_failed_no_artifact = count is_failed_now attempts;
        transients_abandoned = count is_true transients;
        verified_abandoned = count is_true verified;
        approvals_expired = count is_true approvals;
        approved_kicked = length (kicks_of approved);
        approved_abandoned = count is_abandoned approved;
        settling_resumed = length (resumes_of settling);
        idempotency_locks_cleared = cleared;
      };
      kicks = kicks_of approved ++ resumes_of settling;
    })
