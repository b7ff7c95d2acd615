-- ===== src/Facilitator/Reconcile/Order.antt =====
-- packages/facilitator/src/reconcile.ts, from the anomaly compensator on: what is done with the
-- payments of an order.
use hundi.Common.{
  Bool, true, false, not, Option, none, some, List, [], ◌∷◌, Text, text, find, ◌===◌, if◌then◌else◌,
}
use hundi.Core.Value.{Value, str, obj, Fields, end, field}
use hundi.Core.Crypto.{Crypto}
use hundi.Facilitator.Db.{AttemptState, AttemptRow}
use hundi.Facilitator.Action.{Action, pure, gets, tx, moves, ◌>>=◌, ◌>>◌}
use hundi.Facilitator.StateMachine.{is_active, is_captured, transition_attempt}
use hundi.Facilitator.Reconcile.{
  Reply, PaymentStatus, RazorpayPayment, ReconcileOutcome, already_refunded, is_anomaly, log,
  apply_capture,
}

-- `xs.at(-1)`
abbrev pub last {ℓ} : {A : Type ℓ} → List A → Option A
last [] = none
last (x ∷ []) = some x
last (x ∷ y ∷ ys) = last (y ∷ ys)

abbrev pub has_order : Text → AttemptRow → Bool
has_order order row = is_order row.provider_order_id
  where
    is_order : Option Text → Bool
    is_order none = false
    is_order (some id) = id === order

-- `ProviderCaptureEvent`: at least one of the two is expected.
pub record CaptureEvent : Type 0 where
  pub order_id : Option Text
  pub payment_id : Option Text

abbrev has_payment : Option Text → AttemptRow → Bool
has_payment none row = false
has_payment (some payment) row = is_payment row.provider_payment_id
  where
    is_payment : Option Text → Bool
    is_payment none = false
    is_payment (some id) = id === payment

-- The attempt that the event names: by its order, if it has one, or by its payment.
abbrev pub is_named : CaptureEvent → AttemptRow → Bool
is_named event row = by_order event.order_id
  where
    by_order : Option Text → Bool
    by_order none = has_payment event.payment_id row
    by_order (some []) = has_payment event.payment_id row
    by_order (some order) = has_order order row

-- `event.paymentId ?? attempt.provider_payment_id`, where an empty text counts as missing.
abbrev pub first_of : Option Text → Option Text → Option Text
first_of (some []) stored = none
first_of (some id) stored = some id
first_of none (some []) = none
first_of none stored = stored

abbrev text_field : Text → Option Text → Fields → Fields
text_field k none fs = fs
text_field k (some s) fs = field k (str s) fs

-- `...event`
abbrev event_fields : CaptureEvent → Fields
event_fields event =
    text_field (text "orderId") event.order_id (text_field (text "paymentId") event.payment_id end)

module _ (crypto : Crypto) where
  refund_fields : (attempt_id payment_id : Text) → Fields → Fields
  refund_fields attempt_id payment_id fs =
      field (text "attempt_id") (str attempt_id) (field (text "payment_id") (str payment_id) fs)

  -- After the provider answered the refund. Nothing but the provider's call throws inside the `try`:
  -- the payload of the entry is made of texts.
  unfoldable pub record_refund :
      (settlement_id attempt_id payment_id : Text) → Reply Text → Action Bool
  unfolding refund_fields
  record_refund settlement_id attempt_id payment_id (Reply.replied refund_id) = do
    tx (
        log crypto (text "anomaly_refund_issued") (some settlement_id) (
          obj (refund_fields attempt_id payment_id (field (text "refund_id") (str refund_id) end))))
    pure true
  record_refund settlement_id attempt_id payment_id (Reply.failed message) = do
    tx (
        log crypto (text "reconciliation_flagged") (some settlement_id) (
          obj (
            field (text "reason") (str (text "refund_api_error"))
              (refund_fields attempt_id payment_id (field (text "detail") (str message) end)))))
    pure false

  unfoldable pub refund_anomaly_capture :
      (settlement_id attempt_id payment_id : Text) → Reply Text → Action Bool
  refund_anomaly_capture settlement_id attempt_id payment_id reply = do
    already ← gets (already_refunded settlement_id payment_id)
    if already then pure true else record_refund settlement_id attempt_id payment_id reply

  unfoldable pub refund_outcome :
      (settlement_id attempt_id payment_id : Text) → Reply Text → Action ReconcileOutcome
  refund_outcome settlement_id attempt_id payment_id reply = do
    refunded ← refund_anomaly_capture settlement_id attempt_id payment_id reply
    pure (
        if refunded
        then ReconcileOutcome.anomaly_refunded
        else ReconcileOutcome.reconciliation_flagged)

  -- `attempt` was read before the payments were fetched; `reply` answers the refund, if one is asked.
  unfoldable pub reconcile_captured_payment :
      AttemptRow → (payment_id provider_order_id : Text) → Reply Text → Action ReconcileOutcome
  unfolding refund_outcome
  reconcile_captured_payment attempt payment_id provider_order_id reply =
      if is_captured attempt.state then pure ReconcileOutcome.no_op else do
        anomaly ← gets (is_anomaly attempt)
        if anomaly then refund_outcome attempt.settlement_id attempt.id payment_id reply else do
          applied ←
              apply_capture crypto
                (record {
                  attempt_id = attempt.id;
                  attempt_state = attempt.state;
                  settlement_id = attempt.settlement_id;
                  provider_order_id = some provider_order_id;
                })
                payment_id
          if applied
              then pure (ReconcileOutcome.captured attempt.id payment_id)
              else refund_outcome attempt.settlement_id attempt.id payment_id reply

  -- What follows the move to `failed`, if the attempt moved.
  unfoldable pub log_failed : AttemptRow → Bool → Action Bool
  log_failed attempt false = pure false
  log_failed attempt true = do
    log crypto (text "payment_failed") (some attempt.settlement_id) (
        obj (
          field (text "attempt_id") (str attempt.id)
            (field (text "reason") (str (text "reconcile_authoritative_failed")) end)))
    pure true

  unfoldable pub fail_attempt_if_live : AttemptRow → Action ReconcileOutcome
  unfolding log_failed
  fail_attempt_if_live attempt =
      if not (is_active attempt.state) then pure ReconcileOutcome.no_op else do
        applied ← tx (
            moves (transition_attempt attempt.id attempt.state AttemptState.failed)
            >>= log_failed attempt)
        pure (if applied then ReconcileOutcome.failed attempt.id else ReconcileOutcome.no_op)

  unfoldable pub follow_payment :
      AttemptRow
      → (provider_order_id : Text) → Option RazorpayPayment
      → Reply Text
      → Action ReconcileOutcome
  follow_payment attempt provider_order_id none reply = pure ReconcileOutcome.no_op
  follow_payment attempt provider_order_id (some payment) reply = elim payment.status [
    | PaymentStatus.captured ↦ reconcile_captured_payment attempt payment.id provider_order_id reply
    | PaymentStatus.failed ↦ fail_attempt_if_live attempt
    | PaymentStatus.other ↦ pure ReconcileOutcome.no_op
  ]

  -- After the payments of the order were fetched.
  unfoldable pub reconcile_fetched :
      AttemptRow
      → (provider_order_id : Text) → Reply (List RazorpayPayment)
      → Reply Text
      → Action ReconcileOutcome
  unfolding follow_payment
  reconcile_fetched attempt provider_order_id (Reply.failed message) reply = do
    tx (
        log crypto (text "reconciliation_flagged") (some attempt.settlement_id) (
          obj (
            field (text "reason") (str (text "fetch_order_payments_failed")) (
              field (text "provider_order_id") (str provider_order_id)
                (field (text "detail") (str message) end)))))
    pure ReconcileOutcome.no_op
  reconcile_fetched attempt provider_order_id (Reply.replied payments) reply =
      follow_payment attempt provider_order_id (last payments) reply

  -- The run with no other request between its parts.
  unfoldable pub reconcile_by_order :
      (provider_order_id : Text)
      → Reply (List RazorpayPayment)
      → Reply Text
      → Action ReconcileOutcome
  reconcile_by_order provider_order_id payments reply = do
    attempt ← gets (λ db. find (has_order provider_order_id) db.attempts)
    elim attempt [
      | none ↦ pure ReconcileOutcome.not_found
      | some a ↦ reconcile_fetched a provider_order_id payments reply
    ]

  unfoldable pub reconcile_by_attempt :
      (attempt_id : Text) → Reply (List RazorpayPayment) → Reply Text → Action ReconcileOutcome
  reconcile_by_attempt attempt_id payments reply = do
    attempt ← gets (λ db. find (λ a. a.id === attempt_id) db.attempts)
    elim attempt [
      | none ↦ pure ReconcileOutcome.not_found
      | some a ↦ elim a.provider_order_id [
        | none ↦ pure ReconcileOutcome.no_op
        | some id ↦
            if id === [] then pure ReconcileOutcome.no_op else reconcile_by_order id payments reply
      ]
    ]

  unfoldable pub flag : (settlement_id : Option Text) → Value → Action (Unit {0})
  flag settlement_id payload = tx (log crypto (text "reconciliation_flagged") settlement_id payload)

  unfoldable pub compensate : AttemptRow → (payment_id : Text) → Reply Text → Action (Unit {0})
  compensate attempt payment_id reply = if is_captured attempt.state then pure tt else do
    anomaly ← gets (is_anomaly attempt)
    if not anomaly then pure tt else do
      _ ← refund_anomaly_capture attempt.settlement_id attempt.id payment_id reply
      pure tt

  unfoldable pub compensate_found :
      CaptureEvent → Option AttemptRow → Reply Text → Action (Unit {0})
  compensate_found event none reply =
      flag none (
        obj (field (text "reason") (str (text "capture_for_unknown_attempt")) (event_fields event)))
  compensate_found event (some attempt) reply =
      elim (first_of event.payment_id attempt.provider_payment_id) [
        | none ↦ flag (some attempt.settlement_id) (
            obj (
              field (text "reason") (str (text "capture_missing_payment_id"))
                (field (text "attempt_id") (str attempt.id) end)))
        | some payment_id ↦ compensate attempt payment_id reply
      ]

  unfoldable pub handle_provider_capture : CaptureEvent → Reply Text → Action (Unit {0})
  unfolding compensate compensate_found flag
  handle_provider_capture event reply = do
    attempt ← gets (λ db. find (is_named event) db.attempts)
    compensate_found event attempt reply
