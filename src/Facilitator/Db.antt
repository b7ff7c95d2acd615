-- ===== src/Facilitator/Db.antt =====
-- packages/facilitator/src/db/schema.sql: the rows of each table. A column that holds JSON is the
-- value that was stringified into it. `merchants`, `ceremony_tokens` and `webhook_events` keep the
-- columns that the code reads.
use hundi.Common.{ℕ, Option, List, Text, ℤ}
use hundi.Core.Value.{Value}
use hundi.Core.Mandate.{IntentMandate, CartMandate}
use hundi.Core.Signature.{Credential}
use hundi.Core.Verify.{Prices}

pub data SettlementState : Type 0 where
  created verifying verified pending_approval approved settling : SettlementState
  captured failed rejected abandoned : SettlementState

pub data AttemptState : Type 0 where
  initiated awaiting_confirmation captured failed superseded : AttemptState

pub data Method : Type 0 where
  s2s_api checkout_driver payment_link : Method

pub data Decision : Type 0 where
  approved rejected : Decision

-- The body of a response to POST /settlements, as it is stored for a replay.
pub data ResponseBody : Type 0 where
  settlement_body : (settlement_id : Text) → SettlementState → (reason : Option Text) → ResponseBody
  error_body : (code : Text) → ResponseBody

pub record MandateRow : Type 0 where
  pub mandate_id : Text
  pub intent : IntentMandate
  pub intent_hash_hex : Text
  pub credential : Credential
  pub revoked_at : Option ℕ
  pub created_at : ℕ

-- The vestigial `state` of an allowance, which nothing writes, is left out.
pub record AllowanceRow : Type 0 where
  pub mandate_id : Text
  pub max_amount_paise : ℕ
  pub expires_at : ℤ

-- `entered_at s` is the column `${s}_at`.
pub record SettlementRow : Type 0 where
  pub id : Text
  pub mandate_id : Text
  pub cart : CartMandate
  pub mandate_cart_hash_hex : Text
  pub amount_paise : ℕ
  pub merchant_id : Text
  pub state : SettlementState
  pub reject_reason : Option Text
  pub entered_at : SettlementState → Option ℕ
  pub kick_count : ℕ

pub record AttemptRow : Type 0 where
  pub id : Text
  pub settlement_id : Text
  pub method : Method
  pub state : AttemptState
  pub receipt : Text
  pub provider_order_id : Option Text
  pub provider_payment_id : Option Text
  pub provider_link_id : Option Text
  pub created_at : ℕ
  pub updated_at : ℕ

pub record ApprovalRow : Type 0 where
  pub settlement_id : Text
  pub decision : Decision
  pub mandate_cart_hash_hex : Text
  pub sig : Value
  pub expires_at : ℤ

pub record IdempotencyRow : Type 0 where
  pub key : Text
  pub request_hash_hex : Text
  pub settlement_id : Option Text
  pub locked_at : Option ℕ
  pub response_status : Option ℕ
  pub response_body : Option ResponseBody

pub record WebhookRow : Type 0 where
  pub event_id : Text
  pub event_type : Value
  pub raw : Text

pub record MerchantRow : Type 0 where
  pub merchant_id : Text
  pub catalog_prices : Option Prices

pub record TokenRow : Type 0 where
  pub token : Text
  pub used_at : Option ℕ

pub record LedgerRow : Type 0 where
  pub seq : ℕ
  pub event_type : Text
  pub settlement_id : Option Text
  pub actor : Text
  pub payload : Value
  pub prev_hash : Text
  pub row_hash : Text

-- `clock` is what `unixepoch()` gives; ledger rows stand in the order of their `seq`.
pub record Db : Type 0 where
  pub clock : ℕ
  pub mandates : List MandateRow
  pub allowances : List AllowanceRow
  pub settlements : List SettlementRow
  pub attempts : List AttemptRow
  pub approvals : List ApprovalRow
  pub idempotency_keys : List IdempotencyRow
  pub webhook_events : List WebhookRow
  pub merchants : List MerchantRow
  pub ceremony_tokens : List TokenRow
  pub ledger : List LedgerRow
