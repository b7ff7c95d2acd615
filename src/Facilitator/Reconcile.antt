-- ===== src/Facilitator/Reconcile.antt =====
-- packages/facilitator/src/reconcile.ts: our rows follow what the payment provider reports. An
-- `await` of the provider stands between two calls of the model, so that other requests may run
-- between them: the attempt that was read before it is an argument of what comes after it.
pub mod Order
pub mod Captures
use hundi.Common.{
  Bool, true, false, not, ◌&&◌, ◌||◌, Option, none, some, List, [], ◌∷◌, Text, text, any, find,
  is_some, ◌===◌, if◌then◌else◌,
}
use hundi.Core.Value.{Value, str, obj, Fields, end, field, get, is_text}
use hundi.Core.Crypto.{Crypto}
use hundi.Facilitator.Db.{SettlementState, AttemptState, AttemptRow, SettlementRow, LedgerRow, Db}
use hundi.Facilitator.Action.{Action, pure, gets, modify, tx, moves, ◌>>=◌, ◌>>◌}
use hundi.Facilitator.Table.{update}
use hundi.Facilitator.StateMachine.{
  is_state, is_active, is_captured, is_attempt_state, transition_settlement, transition_attempt,
}
use hundi.Facilitator.Ledger.{AppendLedgerInput, append_ledger}

-- What a call of the provider's client gave: a value, or the message of what it threw.
pub data Reply (A : Type 0) : Type 0 where
  replied : A → Reply A
  failed : (message : Text) → Reply A

pub data PaymentStatus : Type 0 where
  captured failed other : PaymentStatus

pub record RazorpayPayment : Type 0 where
  pub id : Text
  pub status : PaymentStatus

pub record CaptureTarget : Type 0 where
  pub attempt_id : Text
  pub attempt_state : AttemptState
  pub settlement_id : Text
  pub provider_order_id : Option Text

pub data ReconcileOutcome : Type 0 where
  no_op not_found anomaly_refunded reconciliation_flagged : ReconcileOutcome
  captured : (attempt_id payment_id : Text) → ReconcileOutcome
  failed : (attempt_id : Text) → ReconcileOutcome

-- The UPDATE of `provider_payment_id` by the attempt's id.
abbrev pub set_payment : Text → Text → Db → Db
set_payment attempt_id payment_id db = record db {
  attempts =
      update (λ a. a.id === attempt_id)
        (λ a. record a { provider_payment_id = some payment_id; updated_at = db.clock })
        db.attempts;
}

abbrev order_field : Option Text → Fields → Fields
order_field none fs = fs
order_field (some []) fs = fs
order_field (some id) fs = field (text "provider_order_id") (str id) fs

abbrev pub capture_payload : CaptureTarget → (payment_id : Text) → Value
capture_payload target payment_id = obj (
    field (text "attempt_id") (str target.attempt_id) (
      order_field target.provider_order_id
        (field (text "provider_payment_id") (str payment_id) end)))

-- The row of an anomaly's refund that names this payment.
abbrev is_refund_of : (settlement_id payment_id : Text) → LedgerRow → Bool
is_refund_of settlement_id payment_id row =
    (row.event_type === text "anomaly_refund_issued")
    && (is_settlement row.settlement_id && is_text (get (text "payment_id") row.payload) payment_id)
  where
    is_settlement : Option Text → Bool
    is_settlement none = false
    is_settlement (some id) = id === settlement_id

unfoldable pub already_refunded : (settlement_id payment_id : Text) → Db → Bool
already_refunded settlement_id payment_id db = any (is_refund_of settlement_id payment_id) db.ledger

-- The attempt can no longer be the one that its settlement was paid by.
unfoldable pub is_anomaly : AttemptRow → Db → Bool
is_anomaly attempt db =
    not (is_active attempt.state)
    || (not (is_settling (find (λ s. s.id === attempt.settlement_id) db.settlements))
        || any (λ a. (a.settlement_id === attempt.settlement_id) && is_captured a.state)
            db.attempts)
  where
    is_settling : Option SettlementRow → Bool
    is_settling none = false
    is_settling (some s) = is_state s.state SettlementState.settling

module _ (crypto : Crypto) where
  abbrev pub log : (event_type : Text) → (settlement_id : Option Text) → Value → Action (Unit {0})
  log event_type settlement_id payload = do
    _ ← append_ledger crypto (record {
      event_type = event_type;
      settlement_id = settlement_id;
      actor = text "facilitator";
      payload = payload;
    })
    pure tt

  -- What follows the move of the settlement, if it moved.
  unfoldable pub log_capture : CaptureTarget → (payment_id : Text) → Bool → Action Bool
  log_capture target payment_id false = pure false
  log_capture target payment_id true = do
    log (text "payment_captured") (some target.settlement_id) (capture_payload target payment_id)
    pure true

  -- What follows the move of the attempt, if it moved.
  unfoldable pub capture_settlement : CaptureTarget → (payment_id : Text) → Bool → Action Bool
  capture_settlement target payment_id false = pure false
  capture_settlement target payment_id true = do
    modify (set_payment target.attempt_id payment_id)
    moved ← moves (
        transition_settlement target.settlement_id SettlementState.settling SettlementState.captured
          none)
    log_capture target payment_id moved

  unfoldable pub apply_capture : CaptureTarget → (payment_id : Text) → Action Bool
  apply_capture target payment_id = tx (
      moves (transition_attempt target.attempt_id target.attempt_state AttemptState.captured)
      >>= capture_settlement target payment_id)
