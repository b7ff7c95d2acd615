-- ===== src/Facilitator/Preserves/Rules.antt =====
-- The rules of packages/facilitator/src/sweep.ts.
use hundi.Facilitator.MandateRepo.{get_mandate_row}
use hundi.Facilitator.StateMachine.{is_state, is_active}
use hundi.Facilitator.Sweep.{
  is_stale, reconciliation_flagged_for, in_state_since, is_transient, SweepTtls,
}
use hundi.Facilitator.Reconcile.{RazorpayPayment, Reply}
use hundi.Facilitator.Sweep.Rules.{
  sweep_ordered, sweep_approved, sweep_approval, expire_approval, sweep_attempt, run_sweep,
  sweep_stale_idempotency_locks, sweep_stuck_settling, sweep_settling, flag_once,
  sweep_stale_approved, give_up_or_kick, sweep_expired_approvals, sweep_stale_verified,
  sweep_transient_settlements, sweep_stale_attempts, fail_no_artifact, log_no_artifact,
  abandon_settlement, log_abandoned,
}
use hundi.Common.{
  [], ◌∷◌, ◌===◌, ℕ, ◌||◌, ◌&&◌, Bool, true, false, any, filter, Text, text, leb, List, Option,
  none, some, refl,
}
use hundi.Core.Crypto.{Crypto}
use hundi.Facilitator.Db.{Db, SettlementState, SettlementRow, AttemptRow, MandateRow}
use hundi.Facilitator.Action.{modify, ◌>>=◌, gets, each}
use hundi.Facilitator.Preserves.Execution.{log_event-Preserves}
use hundi.Facilitator.Preserves.Orders.{reconcile_by_attempt-Preserves}
use hundi.Facilitator.Preserves.{
  Laws, Preserves, Preserves->>=, Preserves-tx, Preserves-moves, Preserves-pure, Preserves-gets,
  Preserves-if, Preserves-each, Preserves-other,
}

module _ (crypto : Crypto) (P : Db → Type 0) (laws : Laws crypto P) where
  log_abandoned-Preserves :
      (id event_type reason : Text) (moved : Bool)
      → Preserves P (log_abandoned crypto id event_type reason moved)
  unfolding log_abandoned
  log_abandoned-Preserves id event_type reason false = Preserves-pure P _
  log_abandoned-Preserves id event_type reason true =
      Preserves->>= P _ _ (log_event-Preserves crypto P laws _ _ _ _) (λ _. Preserves-pure P _)

  abandon_settlement-Preserves :
      (id : Text) (from : SettlementState) (event_type reason : Text)
      → Preserves P (abandon_settlement crypto id from event_type reason)
  unfolding abandon_settlement
  abandon_settlement-Preserves id from event_type reason = Preserves-tx P _ (
      Preserves->>= P _ _ (Preserves-moves P _ (laws.move_settlement id from _ none (λ e. cc e)))
        (λ moved. log_abandoned-Preserves id event_type reason moved))

  log_no_artifact-Preserves :
      (attempt : AttemptRow) (moved : Bool) → Preserves P (log_no_artifact crypto attempt moved)
  unfolding log_no_artifact
  log_no_artifact-Preserves attempt false = Preserves-pure P _
  log_no_artifact-Preserves attempt true =
      Preserves->>= P _ _ (log_event-Preserves crypto P laws _ _ _ _) (λ _. Preserves-pure P _)

  fail_no_artifact-Preserves :
      (attempt : AttemptRow) → Preserves P (fail_no_artifact crypto attempt)
  unfolding fail_no_artifact
  fail_no_artifact-Preserves attempt = Preserves-if P _ _ _ (Preserves-pure P _) (
      Preserves->>= P _ _
        (Preserves-tx P _ (
          Preserves->>= P _ _ (Preserves-moves P _ (laws.move_attempt _ _ _))
            (λ moved. log_no_artifact-Preserves attempt moved)))
        (λ failed. Preserves-pure P _))

  sweep_ordered-Preserves :
      (payments : Text → Reply (List RazorpayPayment)) (reply : Text → Reply Text)
      (attempt : AttemptRow) (order : Option Text)
      → Preserves P (sweep_ordered crypto payments reply attempt order)
  sweep_ordered-Preserves payments reply attempt none = fail_no_artifact-Preserves attempt
  sweep_ordered-Preserves payments reply attempt (some []) = fail_no_artifact-Preserves attempt
  sweep_ordered-Preserves payments reply attempt (some (c ∷ s)) =
      Preserves->>= P _ _
        (reconcile_by_attempt-Preserves crypto P laws attempt.id (payments attempt.id)
          (reply attempt.id))
        (λ _. Preserves-pure P _)

  sweep_stale_attempts-Preserves :
      (ttls : SweepTtls) (now : ℕ) (payments : Text → Reply (List RazorpayPayment))
      (reply : Text → Reply Text)
      → Preserves P (sweep_stale_attempts crypto ttls now payments reply)
  unfolding sweep_stale_attempts sweep_attempt
  sweep_stale_attempts-Preserves ttls now payments reply =
      Preserves->>= P _ _
        (Preserves-gets P (λ db.
          filter (λ a. is_active a.state && is_stale now ttls.attempt_stale_ms a.created_at)
            db.attempts))
        (λ rows.
          Preserves-each P _ rows
            (λ a. sweep_ordered-Preserves payments reply a a.provider_order_id))

  -- The rules that abandon every row they select.
  abandons-Preserves :
      (rows : Db → List SettlementRow) (from : SettlementRow → SettlementState)
      (event_type reason : Text)
      → Preserves P (
          gets rows >>= λ rs.
          each (λ row. abandon_settlement crypto row.id (from row) event_type reason) rs)
  abandons-Preserves rows from event_type reason =
      Preserves->>= P _ _ (Preserves-gets P rows) (λ rs.
        Preserves-each P _ rs
          (λ row. abandon_settlement-Preserves row.id (from row) event_type reason))

  sweep_transient_settlements-Preserves :
      (ttls : SweepTtls) (now : ℕ) → Preserves P (sweep_transient_settlements crypto ttls now)
  unfolding sweep_transient_settlements
  sweep_transient_settlements-Preserves ttls now =
      abandons-Preserves (λ db. filter (is_transient now ttls.transient_stale_ms) db.settlements)
        (λ row. row.state) _ _

  sweep_stale_verified-Preserves :
      (ttls : SweepTtls) (now : ℕ) → Preserves P (sweep_stale_verified crypto ttls now)
  unfolding sweep_stale_verified
  sweep_stale_verified-Preserves ttls now =
      abandons-Preserves
        (λ db.
          filter (in_state_since SettlementState.verified now ttls.verified_stale_ms)
            db.settlements)
        (λ row. SettlementState.verified) _ _

  expire_approval-Preserves :
      (ttls : SweepTtls) (now : ℕ) (row : SettlementRow) (registered : Option MandateRow)
      → Preserves P (expire_approval crypto ttls now row registered)
  expire_approval-Preserves ttls now row none = Preserves-pure P _
  expire_approval-Preserves ttls now row (some m) =
      Preserves-if P _ _ _ (Preserves-pure P _) (abandon_settlement-Preserves row.id _ _ _)

  sweep_expired_approvals-Preserves :
      (ttls : SweepTtls) (now : ℕ) → Preserves P (sweep_expired_approvals crypto ttls now)
  unfolding sweep_expired_approvals sweep_approval
  sweep_expired_approvals-Preserves ttls now =
      Preserves->>= P _ _
        (Preserves-gets P (λ db.
          filter (λ row. is_state row.state SettlementState.pending_approval) db.settlements))
        (λ rows. Preserves-each P _ rows (λ row.
          Preserves->>= P _ _ (Preserves-gets P (λ db. get_mandate_row db row.mandate_id))
            (λ registered. expire_approval-Preserves ttls now row registered)))

  give_up_or_kick-Preserves :
      (ttls : SweepTtls) (row : SettlementRow) (mandate_expired : Bool)
      → Preserves P (give_up_or_kick crypto ttls row mandate_expired)
  unfolding give_up_or_kick
  give_up_or_kick-Preserves ttls row mandate_expired =
      Preserves-if P (mandate_expired || leb ttls.max_approved_kicks row.kick_count) _ _
        (Preserves->>= P _ _ (abandon_settlement-Preserves row.id _ _ _)
          (λ gone. Preserves-pure P _))
        (Preserves->>= P _ _ (laws.bump_kicks row.id) (λ bumped. Preserves-pure P _))

  sweep_stale_approved-Preserves :
      (ttls : SweepTtls) (now : ℕ) → Preserves P (sweep_stale_approved crypto ttls now)
  unfolding sweep_stale_approved sweep_approved
  sweep_stale_approved-Preserves ttls now =
      Preserves->>= P _ _
        (Preserves-gets P (λ db.
          filter (in_state_since SettlementState.approved now ttls.approved_stale_ms)
            db.settlements))
        (λ rows. Preserves-each P _ rows (λ row.
          Preserves->>= P _ _ (Preserves-gets P (λ db. get_mandate_row db row.mandate_id))
            (λ registered. give_up_or_kick-Preserves ttls row _)))

  flag_once-Preserves : (settlement_id : Text) → Preserves P (flag_once crypto settlement_id)
  unfolding flag_once
  flag_once-Preserves settlement_id =
      Preserves->>= P _ _
        (Preserves-gets P
          (reconciliation_flagged_for settlement_id (text "settling_no_active_attempt")))
        (λ flagged.
          Preserves-if P flagged _ _ (Preserves-pure P tt)
            (Preserves-tx P _ (log_event-Preserves crypto P laws _ _ _ _)))

  sweep_settling-Preserves : (row : SettlementRow) → Preserves P (sweep_settling crypto row)
  unfolding sweep_settling
  sweep_settling-Preserves row =
      Preserves->>= P _ _
        (Preserves-gets P
          (λ db. any (λ a. (a.settlement_id === row.id) && is_active a.state) db.attempts))
        (λ active.
          Preserves-if P active _ _ (Preserves-pure P _)
            (Preserves->>= P _ _ (flag_once-Preserves row.id) (λ _. Preserves-pure P _)))

  sweep_stuck_settling-Preserves :
      (ttls : SweepTtls) (now : ℕ) → Preserves P (sweep_stuck_settling crypto ttls now)
  unfolding sweep_stuck_settling
  sweep_stuck_settling-Preserves ttls now =
      Preserves->>= P _ _
        (Preserves-gets P (λ db.
          filter (in_state_since SettlementState.settling now ttls.settling_no_attempt_stale_ms)
            db.settlements))
        (λ rows. Preserves-each P _ rows (λ row. sweep_settling-Preserves row))

  sweep_stale_idempotency_locks-Preserves :
      (ttls : SweepTtls) (now : ℕ) → Preserves P (sweep_stale_idempotency_locks ttls now)
  unfolding sweep_stale_idempotency_locks
  sweep_stale_idempotency_locks-Preserves ttls now =
      Preserves->>= P _ _ (Preserves-gets P _) (λ cleared.
        Preserves->>= P (modify _) _
          (Preserves-other crypto P laws _ (λ db. (refl, refl, refl, refl)))
          (λ _. Preserves-pure P cleared))

  -- A run of the sweep preserves what satisfies the laws.
  pub run_sweep-Preserves :
      (ttls : SweepTtls) (now : ℕ) (payments : Text → Reply (List RazorpayPayment))
      (reply : Text → Reply Text)
      → Preserves P (run_sweep crypto ttls now payments reply)
  unfolding run_sweep
  run_sweep-Preserves ttls now payments reply =
      Preserves->>= P _ _ (sweep_stale_attempts-Preserves ttls now payments reply) (λ a.
        Preserves->>= P _ _ (sweep_transient_settlements-Preserves ttls now) (λ b.
          Preserves->>= P _ _ (sweep_stale_verified-Preserves ttls now) (λ c.
            Preserves->>= P _ _ (sweep_expired_approvals-Preserves ttls now) (λ d.
              Preserves->>= P _ _ (sweep_stale_approved-Preserves ttls now) (λ e.
                Preserves->>= P _ _ (sweep_stuck_settling-Preserves ttls now) (λ f.
                  Preserves->>= P _ _ (sweep_stale_idempotency_locks-Preserves ttls now)
                    (λ g. Preserves-pure P _)))))))
