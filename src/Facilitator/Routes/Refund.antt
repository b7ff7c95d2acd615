-- ===== src/Facilitator/Routes/Refund.antt =====
-- packages/facilitator/src/routes/refund.ts: POST /settlements/:id/refund, after the header's token was
-- checked. `reply` is what the provider's client returned or threw, if it is asked.
pub mod Once
use hundi.Common.{
  ℕ, Bool, true, false, ◌&&◌, Option, none, some, List, [], ◌∷◌, Text, text, find, ◌===◌,
  if◌then◌else◌, Result, ok, err, Exception, provider_error, route_error,
}
use hundi.Core.Value.{Value, str, obj, end, field, get, text_of, nat_of, nat}
use hundi.Core.Crypto.{Crypto}
use hundi.Facilitator.Db.{SettlementState, SettlementRow, AttemptRow, LedgerRow, Db}
use hundi.Facilitator.Action.{Action, pure, throw, gets, tx, need, ensure, ◌>>=◌, ◌>>◌}
use hundi.Facilitator.StateMachine.{is_state, is_captured}
use hundi.Facilitator.Ledger.{append_ledger}

pub record Refund : Type 0 where
  pub refund_id : Text
  pub amount_paise : ℕ

abbrev is_about : Text → Option Text → Bool
is_about settlement_id none = false
is_about settlement_id (some id) = id === settlement_id

abbrev pub is_issued : Text → LedgerRow → Bool
is_issued settlement_id row =
    (row.event_type === text "refund_issued") && is_about settlement_id row.settlement_id

abbrev pub refund_of : Value → Refund
refund_of payload = record {
  refund_id = text_of (get (text "refund_id") payload);
  amount_paise = nat_of (get (text "amount_paise") payload);
}

-- The entry of a refund that was issued before.
unfoldable pub find_issued_refund : Text → Db → Option LedgerRow
find_issued_refund settlement_id db = find (is_issued settlement_id) db.ledger

-- An absent payment, and an empty one, are refused.
abbrev pub payment_of : Option AttemptRow → Option Text
payment_of none = none
payment_of (some attempt) = not_empty attempt.provider_payment_id
  where
    not_empty : Option Text → Option Text
    not_empty none = none
    not_empty (some []) = none
    not_empty (some id) = some id

abbrev attempt_of : Option AttemptRow → Text
attempt_of none = []
attempt_of (some attempt) = attempt.id

-- The provider's own error is a 502; any other goes on.
abbrev pub receive_refund : Result Text → Action Text
receive_refund (ok refund_id) = pure refund_id
receive_refund (err provider_error) = throw (route_error 502 (text "REFUND_PROVIDER_ERROR"))
receive_refund (err e) = throw e

abbrev pub refund_payload : (attempt_id payment_id refund_id : Text) → (amount_paise : ℕ) → Value
refund_payload attempt_id payment_id refund_id amount_paise = obj (
    field (text "attempt_id") (str attempt_id) (
      field (text "payment_id") (str payment_id) (
        field (text "refund_id") (str refund_id)
          (field (text "amount_paise") (nat amount_paise) end))))

module _ (crypto : Crypto) where
  -- The transaction, once the provider has refunded.
  unfoldable pub issue_refund :
      (settlement_id attempt_id payment_id refund_id : Text)
      → (amount_paise : ℕ) → Action (Unit {0})
  issue_refund settlement_id attempt_id payment_id refund_id amount_paise = do
    _ ← append_ledger crypto (record {
      event_type = text "refund_issued";
      settlement_id = some settlement_id;
      actor = text "dashboard";
      payload = refund_payload attempt_id payment_id refund_id amount_paise;
    })
    pure tt

  -- No refund was issued before.
  unfoldable pub refund_captured : SettlementRow → Result Text → Action Refund
  refund_captured settlement reply = do
    ensure (route_error 409 (text "SETTLEMENT_NOT_CAPTURED"))
        (is_state settlement.state SettlementState.captured)
    attempt ←
        gets
          (λ db. find (λ a. (a.settlement_id === settlement.id) && is_captured a.state) db.attempts)
    payment_id ← need (route_error 409 (text "NO_CAPTURED_PAYMENT")) (payment_of attempt)
    refund_id ← receive_refund reply
    tx (
        issue_refund settlement.id (attempt_of attempt) payment_id refund_id
          settlement.amount_paise)
    pure (record { refund_id = refund_id; amount_paise = settlement.amount_paise })

  unfoldable pub answer_refund : SettlementRow → Option LedgerRow → Result Text → Action Refund
  answer_refund settlement (some row) reply = pure (refund_of row.payload)
  answer_refund settlement none reply = refund_captured settlement reply

  unfoldable pub post_refund : (settlement_id : Text) → (reply : Result Text) → Action Refund
  post_refund settlement_id reply = do
    found ← gets (λ db. find (λ s. s.id === settlement_id) db.settlements)
    settlement ← need (route_error 404 (text "SETTLEMENT_NOT_FOUND")) found
    issued ← gets (find_issued_refund settlement_id)
    answer_refund settlement issued reply
