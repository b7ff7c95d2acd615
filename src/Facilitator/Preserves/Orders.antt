-- ===== src/Facilitator/Preserves/Orders.antt =====
-- What satisfies the laws is preserved by the reconciliation of an order, and by the handling of a
-- capture that the provider reports, of packages/facilitator/src/reconcile.ts.
use hundi.Common.{
  [], if◌then◌else◌, ◌===◌, true, false, Bool, Text, text, List, not, Option, none, some, find,
}
use hundi.Core.Crypto.{Crypto}
use hundi.Core.Value.{Value, str, obj, end, field}
use hundi.Facilitator.Db.{Db, AttemptRow}
use hundi.Facilitator.Action.{tx, pure}
use hundi.Facilitator.StateMachine.{is_captured}
use hundi.Facilitator.Reconcile.{
  Reply, PaymentStatus, RazorpayPayment, ReconcileOutcome, log, already_refunded, is_anomaly,
}
use hundi.Facilitator.Reconcile.Order.{
  reconcile_by_attempt, CaptureEvent, has_order, is_named, first_of, record_refund,
  refund_anomaly_capture, refund_outcome, reconcile_captured_payment, log_failed,
  fail_attempt_if_live, follow_payment, last, reconcile_fetched, reconcile_by_order, flag,
  compensate, compensate_found, handle_provider_capture,
}
use hundi.Facilitator.Preserves.{
  capture_laws, Laws, Preserves, Preserves->>=, Preserves-tx, Preserves-moves, Preserves-pure,
  Preserves-gets, Preserves-if,
}
use hundi.Facilitator.Preserves.Captures.{apply_capture-Preserves}

module _ (crypto : Crypto) (P : Db → Type 0) (laws : Laws crypto P) where
  logs-Preserves :
      (event_type : Text) (settlement_id : Option Text) (payload : Value)
      → Preserves P (log crypto event_type settlement_id payload)
  logs-Preserves event_type settlement_id payload =
      Preserves->>= P _ _ (laws.append _) (λ _. Preserves-pure P tt)

  tx-log-Preserves :
      (event_type : Text) (settlement_id : Option Text) (payload : Value)
      → Preserves P (tx (log crypto event_type settlement_id payload))
  tx-log-Preserves event_type settlement_id payload =
      Preserves-tx P _ (logs-Preserves event_type settlement_id payload)

  record_refund-Preserves :
      (settlement_id attempt_id payment_id : Text) (reply : Reply Text)
      → Preserves P (record_refund crypto settlement_id attempt_id payment_id reply)
  unfolding record_refund
  record_refund-Preserves settlement_id attempt_id payment_id (Reply.replied refund_id) =
      Preserves->>= P _ _ (tx-log-Preserves _ _ _) (λ _. Preserves-pure P _)
  record_refund-Preserves settlement_id attempt_id payment_id (Reply.failed message) =
      Preserves->>= P _ _ (tx-log-Preserves _ _ _) (λ _. Preserves-pure P _)

  refund_anomaly_capture-Preserves :
      (settlement_id attempt_id payment_id : Text) (reply : Reply Text)
      → Preserves P (refund_anomaly_capture crypto settlement_id attempt_id payment_id reply)
  unfolding refund_anomaly_capture
  refund_anomaly_capture-Preserves settlement_id attempt_id payment_id reply =
      Preserves->>= P _ _ (Preserves-gets P (already_refunded settlement_id payment_id)) (λ already.
        Preserves-if P already _ _ (Preserves-pure P true)
          (record_refund-Preserves settlement_id attempt_id payment_id reply))

  refund_outcome-Preserves :
      (settlement_id attempt_id payment_id : Text) (reply : Reply Text)
      → Preserves P (refund_outcome crypto settlement_id attempt_id payment_id reply)
  unfolding refund_outcome
  refund_outcome-Preserves settlement_id attempt_id payment_id reply =
      Preserves->>= P _ _
        (refund_anomaly_capture-Preserves settlement_id attempt_id payment_id reply)
        (λ refunded. Preserves-pure P _)

  reconcile_captured_payment-Preserves :
      (attempt : AttemptRow) (payment_id provider_order_id : Text) (reply : Reply Text)
      → Preserves P (reconcile_captured_payment crypto attempt payment_id provider_order_id reply)
  unfolding reconcile_captured_payment
  reconcile_captured_payment-Preserves attempt payment_id provider_order_id reply =
      Preserves-if P (is_captured attempt.state) _ _ (Preserves-pure P _) (
        Preserves->>= P _ _ (Preserves-gets P (is_anomaly attempt)) (λ anomaly.
          Preserves-if P anomaly _ _ (refund_outcome-Preserves _ _ _ reply) (
            Preserves->>= P _ _
              (apply_capture-Preserves crypto P (capture_laws crypto P laws) _ payment_id)
              (λ applied.
                Preserves-if P applied _ _ (Preserves-pure P _)
                  (refund_outcome-Preserves _ _ _ reply)))))

  log_failed-Preserves :
      (attempt : AttemptRow) (moved : Bool) → Preserves P (log_failed crypto attempt moved)
  unfolding log_failed
  log_failed-Preserves attempt false = Preserves-pure P _
  log_failed-Preserves attempt true =
      Preserves->>= P _ _ (logs-Preserves _ _ _) (λ _. Preserves-pure P _)

  fail_attempt_if_live-Preserves :
      (attempt : AttemptRow) → Preserves P (fail_attempt_if_live crypto attempt)
  unfolding fail_attempt_if_live
  fail_attempt_if_live-Preserves attempt = Preserves-if P _ _ _ (Preserves-pure P _) (
      Preserves->>= P _ _
        (Preserves-tx P _ (
          Preserves->>= P _ _ (Preserves-moves P _ (laws.move_attempt _ _ _))
            (log_failed-Preserves attempt)))
        (λ applied. Preserves-pure P _))

  follow_payment-Preserves :
      (attempt : AttemptRow) (provider_order_id : Text) (payment : Option RazorpayPayment)
      (reply : Reply Text)
      → Preserves P (follow_payment crypto attempt provider_order_id payment reply)
  unfolding follow_payment
  follow_payment-Preserves attempt provider_order_id none reply = Preserves-pure P _
  follow_payment-Preserves attempt provider_order_id (some payment) reply = go payment.status
    where
      go :
          (status : PaymentStatus)
          → Preserves P (elim status [
            | PaymentStatus.captured ↦
                reconcile_captured_payment crypto attempt payment.id provider_order_id reply
            | PaymentStatus.failed ↦ fail_attempt_if_live crypto attempt
            | PaymentStatus.other ↦ pure ReconcileOutcome.no_op
          ])
      go PaymentStatus.captured =
          reconcile_captured_payment-Preserves attempt payment.id provider_order_id reply
      go PaymentStatus.failed = fail_attempt_if_live-Preserves attempt
      go PaymentStatus.other = Preserves-pure P _

  reconcile_fetched-Preserves :
      (attempt : AttemptRow) (provider_order_id : Text) (payments : Reply (List RazorpayPayment))
      (reply : Reply Text)
      → Preserves P (reconcile_fetched crypto attempt provider_order_id payments reply)
  unfolding reconcile_fetched
  reconcile_fetched-Preserves attempt provider_order_id (Reply.failed message) reply =
      Preserves->>= P _ _ (tx-log-Preserves _ _ _) (λ _. Preserves-pure P _)
  reconcile_fetched-Preserves attempt provider_order_id (Reply.replied payments) reply =
      follow_payment-Preserves attempt provider_order_id (last payments) reply

  -- What satisfies the laws is preserved by the reconciliation of an order, whatever the provider
  -- answers.
  pub reconcile_by_order-Preserves :
      (provider_order_id : Text) (payments : Reply (List RazorpayPayment)) (reply : Reply Text)
      → Preserves P (reconcile_by_order crypto provider_order_id payments reply)
  unfolding reconcile_by_order
  reconcile_by_order-Preserves provider_order_id payments reply =
      Preserves->>= P _ _ (Preserves-gets P (λ db. find (has_order provider_order_id) db.attempts))
        (λ attempt.
          elim attempt
            as (λ o. Preserves P (elim o [
              | none ↦ pure ReconcileOutcome.not_found
              | some a ↦ reconcile_fetched crypto a provider_order_id payments reply
            ])) [
              | none ↦ Preserves-pure P _
              | some a ↦ reconcile_fetched-Preserves a provider_order_id payments reply
            ])

  compensate-Preserves :
      (attempt : AttemptRow) (payment_id : Text) (reply : Reply Text)
      → Preserves P (compensate crypto attempt payment_id reply)
  unfolding compensate
  compensate-Preserves attempt payment_id reply =
      Preserves-if P (is_captured attempt.state) _ _ (Preserves-pure P _) (
        Preserves->>= P _ _ (Preserves-gets P (is_anomaly attempt)) (λ anomaly.
          Preserves-if P (not anomaly) _ _ (Preserves-pure P _) (
            Preserves->>= P _ _
              (refund_anomaly_capture-Preserves attempt.settlement_id attempt.id payment_id reply)
              (λ _. Preserves-pure P _))))

  compensate_found-Preserves :
      (event : CaptureEvent) (attempt : Option AttemptRow) (reply : Reply Text)
      → Preserves P (compensate_found crypto event attempt reply)
  unfolding compensate_found flag
  compensate_found-Preserves event none reply = tx-log-Preserves _ _ _
  compensate_found-Preserves event (some attempt) reply =
      go (first_of event.payment_id attempt.provider_payment_id)
    where
      go :
          (payment_id : Option Text)
          → Preserves P (elim payment_id [
            | none ↦ flag crypto (some attempt.settlement_id) (
                obj (
                  field
                    (text "reason")
                    (str (text "capture_missing_payment_id"))
                    (field (text "attempt_id") (str attempt.id) end)))
            | some payment_id ↦ compensate crypto attempt payment_id reply
          ])
      go none = tx-log-Preserves _ _ _
      go (some payment_id) = compensate-Preserves attempt payment_id reply

  -- What satisfies the laws is preserved by the handling of a capture that the provider reports,
  -- whatever the provider answers to a refund.
  pub handle_provider_capture-Preserves :
      (event : CaptureEvent) (reply : Reply Text)
      → Preserves P (handle_provider_capture crypto event reply)
  unfolding handle_provider_capture
  handle_provider_capture-Preserves event reply =
      Preserves->>= P _ _ (Preserves-gets P (λ db. find (is_named event) db.attempts))
        (λ attempt. compensate_found-Preserves event attempt reply)

  -- The reconciliation of an attempt, through its order.
  pub reconcile_by_attempt-Preserves :
      (attempt_id : Text) (payments : Reply (List RazorpayPayment)) (reply : Reply Text)
      → Preserves P (reconcile_by_attempt crypto attempt_id payments reply)
  unfolding reconcile_by_attempt
  reconcile_by_attempt-Preserves attempt_id payments reply =
      Preserves->>= P _ _ (Preserves-gets P (λ db. find (λ a. a.id === attempt_id) db.attempts))
        (λ attempt.
          elim attempt
            as (λ o. Preserves P (elim o [
              | none ↦ pure ReconcileOutcome.not_found
              | some a ↦ elim a.provider_order_id [
                | none ↦ pure ReconcileOutcome.no_op
                | some id ↦
                    if id === []
                    then pure ReconcileOutcome.no_op
                    else reconcile_by_order crypto id payments reply
              ]
            ])) [
              | none ↦ Preserves-pure P _
              | some a ↦
                  elim a.provider_order_id
                    as (λ o. Preserves P (elim o [
                      | none ↦ pure ReconcileOutcome.no_op
                      | some id ↦
                          if id === []
                          then pure ReconcileOutcome.no_op
                          else reconcile_by_order crypto id payments reply
                    ])) [
                      | none ↦ Preserves-pure P _
                      | some id ↦
                          Preserves-if P (id === []) _ _ (Preserves-pure P _)
                            (reconcile_by_order-Preserves id payments reply)
                    ]
            ])
