-- ===== src/Facilitator/Routes/Settlements.antt =====
-- packages/facilitator/src/routes/settlements.ts: POST /settlements. The body is what the Zod schema
-- let through; `settlement_id` is what randomUUID gave, and `now` is the time of the request.
pub mod Replay
use hundi.Common.{
  ℕ, Bool, Option, none, some, [], Text, text, Result, false, if◌then◌else◌, route_error,
}
use hundi.Core.Value.{Value, get}
use hundi.Core.CanonicalJson.{canonical_json}
use hundi.Core.Crypto.{Crypto}
use hundi.Core.Mandate.{IntentMandate, CartMandate}
use hundi.Core.Signature.{sha256_hex}
use hundi.Facilitator.Db.{SettlementState, ResponseBody, settlement_body, error_body}
use hundi.Facilitator.Action.{Action, pure, throw, lift, tx, ◌>>=◌, ◌>>◌}
use hundi.Facilitator.StateMachine.{is_state}
use hundi.Facilitator.Idempotency.{
  IdempotencyClaim, claimed, hash_mismatch, in_flight, completed, claim_idempotency_key,
  complete_idempotency_key,
}
use hundi.Facilitator.SettlementService.{CreateSettlementOutcome, create_settlement}

-- The answer, and the settlement that the executor is told to execute.
pub record Answer : Type 0 where
  pub status : ℕ
  pub body : ResponseBody
  pub execute : Option Text

abbrev pub intent_of : Value → IntentMandate
intent_of v = record {
  mandate_id = get (text "mandateId") v;
  goal = get (text "goal") v;
  ceiling_paise = get (text "ceiling_paise") v;
  approval_threshold_paise = get (text "approval_threshold_paise") v;
  currency = get (text "currency") v;
  merchants = get (text "merchants") v;
  expires_at = get (text "expires_at") v;
  agent_pubkey_hex = get (text "agent_pubkey_hex") v;
  per_merchant_ceiling_paise = get (text "per_merchant_ceiling_paise") v;
  cumulative_approval_threshold_paise = get (text "cumulative_approval_threshold_paise") v;
  allowed_skus = get (text "allowed_skus") v;
  sig = get (text "sig") v;
}

abbrev pub cart_of : Value → CartMandate
cart_of v = record {
  cart_id = get (text "cartId") v;
  merchant_id = get (text "merchant_id") v;
  items = get (text "items") v;
  total_paise = get (text "total_paise") v;
  intent_hash_hex = get (text "intent_hash_hex") v;
  agent_sig_hex = get (text "agent_sig_hex") v;
}

abbrev pub persisted_settlement_id : ResponseBody → Option Text
persisted_settlement_id (settlement_body settlement_id state reason) = some settlement_id
persisted_settlement_id (error_body code) = none

abbrev is_approved : ResponseBody → Bool
is_approved (settlement_body settlement_id state reason) = is_state state SettlementState.approved
is_approved (error_body code) = false

-- A missing header, and an empty one, are refused.
abbrev pub required_key : Option Text → Result Text
required_key none = Result.err (route_error 400 (text "IDEMPOTENCY_KEY_REQUIRED"))
required_key (some []) = Result.err (route_error 400 (text "IDEMPOTENCY_KEY_REQUIRED"))
required_key (some key) = Result.ok key

module _ (crypto : Crypto) where
  -- The transaction of a claimed key.
  unfoldable pub create_and_complete :
      (key settlement_id : Text) → Value → (now : ℕ) → Action CreateSettlementOutcome
  create_and_complete key settlement_id body now = do
    result ←
        create_settlement crypto settlement_id (intent_of (get (text "intent") body))
          (cart_of (get (text "cart") body)) now
    complete_idempotency_key key (persisted_settlement_id result.body) result.status result.body
    pure result

  unfoldable pub answer_claim :
      (key settlement_id : Text) → Value → (now : ℕ) → IdempotencyClaim → Action Answer
  answer_claim key settlement_id body now hash_mismatch =
      throw (route_error 409 (text "KEY_REUSED"))
  answer_claim key settlement_id body now in_flight = throw (route_error 409 (text "IN_FLIGHT"))
  answer_claim key settlement_id body now (completed status stored) =
      pure (record { status = status; body = stored; execute = none })
  answer_claim key settlement_id body now claimed = do
    outcome ← tx (create_and_complete key settlement_id body now)
    pure (record {
      status = outcome.status;
      body = outcome.body;
      execute = if is_approved outcome.body then some settlement_id else none;
    })

  unfoldable pub post_settlements :
      (idempotency_key : Option Text) → Value → (settlement_id : Text) → (now : ℕ) → Action Answer
  post_settlements idempotency_key body settlement_id now = do
    key ← lift (required_key idempotency_key)
    bytes ← lift (canonical_json body)
    claim ← claim_idempotency_key key (sha256_hex crypto bytes)
    answer_claim key settlement_id body now claim
