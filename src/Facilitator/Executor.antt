-- ===== src/Facilitator/Executor.antt =====
-- packages/facilitator/src/executor.ts: what moves money. An `await` of the provider or of the
-- checkout driver ends a step of the model, so that other requests may run before the next step.
pub mod Reverify
pub mod Attempts
pub mod Steps
pub mod Queue
pub mod Ends
pub mod Budget
use hundi.Common.{ℕ, Bool, Option, Text}
use hundi.Facilitator.Db.{SettlementRow}

pub data ExecutionOutcome : Type 0 where
  no_op stalled : ExecutionOutcome
  rejected : (reason : Text) → ExecutionOutcome
  captured : (attempt_id payment_id : Text) → ExecutionOutcome
  payment_link_issued : (attempt_id short_url : Text) → ExecutionOutcome

-- The terminal status that the checkout driver confirmed.
pub data DriverStatus : Type 0 where
  captured failed timeout : DriverStatus

pub record SettleViaCheckoutResult : Type 0 where
  pub is_ok : Bool
  pub payment_id : Option Text
  pub status : Option DriverStatus
  pub error : Option Text

pub record RazorpayPaymentLink : Type 0 where
  pub id : Text
  pub short_url : Text

-- `MAX_ATTEMPTS`
abbrev pub max_attempts : ℕ
max_attempts = 3

-- A run between two steps: what it waits for, and what it needs to go on.
pub data Run : Type 0 where
  creating_order : SettlementRow → (attempt_num : ℕ) → (attempt_id : Text) → Run
  driving : SettlementRow → (attempt_num : ℕ) → (attempt_id provider_order_id : Text) → Run
  creating_link : SettlementRow → (last_attempt_id link_attempt_id receipt : Text) → Run
  finished : ExecutionOutcome → Run
