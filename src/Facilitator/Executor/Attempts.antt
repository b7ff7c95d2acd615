-- ===== src/Facilitator/Executor/Attempts.antt =====
-- packages/facilitator/src/executor.ts: the attempt rows, and the steps of runAttemptLoop and of
-- fallbackToPaymentLink. The identifiers that randomUUID gives are arguments.
use hundi.Common.{
  ℕ, ◌+◌, Bool, true, false, not, ◌&&◌, Option, none, some, List, [], ◌∷◌, ◌++◌, Text, text, any,
  find, take, digits, leb, ◌===◌, if◌then◌else◌, Constraint, sqlite_constraint, provider_error,
}
use hundi.Core.Value.{str, nat, obj, end, field}
use hundi.Core.Crypto.{Crypto}
use hundi.Facilitator.Db.{AttemptState, Method, AttemptRow, SettlementRow, Db}
use hundi.Facilitator.Action.{Action, pure, throw, gets, modify, tx, moves, ◌>>=◌, ◌>>◌}
use hundi.Facilitator.Table.{update}
use hundi.Facilitator.StateMachine.{is_active, attempt_violation, transition_attempt}
use hundi.Facilitator.SettlementService.{log_event}
use hundi.Facilitator.Reconcile.{Reply, apply_capture}
use hundi.Facilitator.Executor.{
  ExecutionOutcome, DriverStatus, SettleViaCheckoutResult, RazorpayPaymentLink, max_attempts, Run,
  creating_order, driving, creating_link, finished,
}

-- The row as it is inserted.
abbrev pub new_attempt :
    (id settlement_id : Text)
    → Method
    → AttemptState
    → (receipt : Text) → (provider_link_id : Option Text) → (clock : ℕ) → AttemptRow
new_attempt id settlement_id method state receipt provider_link_id clock = record {
  id = id;
  settlement_id = settlement_id;
  method = method;
  state = state;
  receipt = receipt;
  provider_order_id = none;
  provider_payment_id = none;
  provider_link_id = provider_link_id;
  created_at = clock;
  updated_at = clock;
}

-- The constraint that an INSERT of the row violates.
unfoldable pub attempt_insert_violation : AttemptRow → Db → Option Constraint
attempt_insert_violation row db =
    if any (λ a. a.id === row.id) db.attempts
    then some Constraint.primary_key
    else if any (λ a. a.receipt === row.receipt) db.attempts
    then some Constraint.unique_receipt
    else elim (attempt_violation row db.attempts) [
      | some constraint ↦ some constraint
      | none ↦
          if any (λ s. s.id === row.settlement_id) db.settlements
          then none
          else some Constraint.foreign_key
    ]

-- The INSERT, once its violation is known.
abbrev pub insert_checked : AttemptRow → Option Constraint → Action (Unit {0})
insert_checked row none = modify (λ db. record db { attempts = db.attempts ++ row ∷ [] })
insert_checked row (some constraint) = throw (sqlite_constraint constraint)

-- `row` takes the clock that the defaults of the columns read.
unfoldable pub insert_attempt : (ℕ → AttemptRow) → Action (Unit {0})
insert_attempt row db =
    insert_checked (row db.clock) (attempt_insert_violation (row db.clock) db) db

-- The UPDATE of `provider_order_id` by the attempt's id.
abbrev pub set_order : (attempt_id provider_order_id : Text) → Db → Db
set_order attempt_id provider_order_id db = record db {
  attempts =
      update (λ a. a.id === attempt_id)
        (λ a. record a { provider_order_id = some provider_order_id; updated_at = db.clock })
        db.attempts;
}

-- `settle-${settlementId}-${attemptNum}-${attemptId.slice(0, 8)}`
abbrev pub receipt_of : (settlement_id : Text) → (attempt_num : ℕ) → (attempt_id : Text) → Text
receipt_of settlement_id attempt_num attempt_id =
    text "settle-"
    ++ (settlement_id ++ (text "-" ++ (digits attempt_num ++ (text "-" ++ take 8 attempt_id))))

-- `settle-${settlementId}-link-${linkAttemptId.slice(0, 8)}`
abbrev pub link_receipt_of : (settlement_id link_attempt_id : Text) → Text
link_receipt_of settlement_id link_attempt_id =
    text "settle-" ++ (settlement_id ++ (text "-link-" ++ take 8 link_attempt_id))

abbrev pub is_driver_attempt : Text → AttemptRow → Bool
is_driver_attempt settlement_id row = (row.settlement_id === settlement_id) && is_driver row.method
  where
    is_driver : Method → Bool
    is_driver Method.checkout_driver = true
    is_driver _ = false

-- `SELECT COUNT(*)` of a settlement's attempts by the checkout driver.
unfoldable pub driver_attempts : Text → List AttemptRow → ℕ
driver_attempts settlement_id [] = 0
driver_attempts settlement_id (row ∷ rows) =
    (if is_driver_attempt settlement_id row then 1 else 0) + driver_attempts settlement_id rows

abbrev pub status_text : Option DriverStatus → Text
status_text none = text "error"
status_text (some DriverStatus.captured) = text "captured"
status_text (some DriverStatus.failed) = text "failed"
status_text (some DriverStatus.timeout) = text "timeout"

abbrev pub error_text : Option Text → Text
error_text none = text "unknown"
error_text (some error) = error

-- The payment of a driver's result that reports a capture; an empty identifier counts as none.
abbrev pub captured_payment : SettleViaCheckoutResult → Option Text
captured_payment result = if result.is_ok then of_status result.status result.payment_id else none
  where
    of_status : Option DriverStatus → Option Text → Option Text
    of_status (some DriverStatus.captured) (some []) = none
    of_status (some DriverStatus.captured) (some payment_id) = some payment_id
    of_status _ _ = none

module _ (crypto : Crypto) where
  -- The transaction of a new attempt, write-ahead of the provider's order.
  unfoldable pub initiate_attempt :
      (settlement_id : Text) → (attempt_num : ℕ) → (attempt_id : Text) → Action (Unit {0})
  initiate_attempt settlement_id attempt_num attempt_id = do
    insert_attempt (
        new_attempt attempt_id settlement_id Method.checkout_driver AttemptState.initiated
          (receipt_of settlement_id attempt_num attempt_id) none)
    log_event crypto settlement_id (text "attempt_initiated") (text "facilitator") (
        obj (
          field (text "attempt_id") (str attempt_id) (
            field (text "method") (str (text "checkout_driver"))
              (field (text "attempt_num") (nat attempt_num) end))))

  -- The head of the loop: `fresh` names the next attempt, or the one of the payment link.
  unfoldable pub next_attempt :
      SettlementRow → (attempt_num : ℕ) → (last_attempt_id fresh : Text) → Action Run
  next_attempt settlement attempt_num last_attempt_id fresh =
      if leb attempt_num max_attempts
      then (do
        tx (initiate_attempt settlement.id attempt_num fresh)
        pure (creating_order settlement attempt_num fresh))
      else pure
          (creating_link settlement last_attempt_id fresh (link_receipt_of settlement.id fresh))

  unfoldable pub run_attempt_loop : SettlementRow → (fresh : Text) → Action Run
  run_attempt_loop settlement fresh = do
    existing_attempts ← gets (λ db. driver_attempts settlement.id db.attempts)
    next_attempt settlement (existing_attempts + 1) [] fresh

  -- The transaction of an order that was not created.
  unfoldable pub fail_uncreated : (settlement_id attempt_id message : Text) → Action (Unit {0})
  fail_uncreated settlement_id attempt_id message = do
    transition_attempt attempt_id AttemptState.initiated AttemptState.failed
    log_event crypto settlement_id (text "payment_failed") (text "facilitator") (
        obj (
          field (text "attempt_id") (str attempt_id) (
            field (text "reason") (str (text "order_create_failed"))
              (field (text "detail") (str message) end))))

  -- After `createOrder`.
  unfoldable pub order_created :
      SettlementRow
      → (attempt_num : ℕ) → (attempt_id : Text) → Reply Text
      → (fresh : Text) → Action Run
  order_created settlement attempt_num attempt_id (Reply.failed message) fresh = do
    tx (fail_uncreated settlement.id attempt_id message)
    next_attempt settlement (attempt_num + 1) attempt_id fresh
  order_created settlement attempt_num attempt_id (Reply.replied provider_order_id) fresh = do
    modify (set_order attempt_id provider_order_id)
    pure (driving settlement attempt_num attempt_id provider_order_id)

  -- The transaction of an attempt that did not capture; another writer may have ended it.
  unfoldable pub fail_driven :
      (settlement_id attempt_id provider_order_id : Text)
      → SettleViaCheckoutResult
      → Action (Unit {0})
  fail_driven settlement_id attempt_id provider_order_id result = do
    _ ← moves (transition_attempt attempt_id AttemptState.initiated AttemptState.failed)
    log_event crypto settlement_id (text "payment_failed") (text "facilitator") (
        obj (
          field (text "attempt_id") (str attempt_id) (
            field (text "provider_order_id") (str provider_order_id) (
              field (text "status") (str (status_text result.status))
                (field (text "error") (str (error_text result.error)) end)))))

  -- The end of the loop's body.
  unfoldable pub end_attempt :
      SettlementRow
      → (attempt_num : ℕ) → (attempt_id provider_order_id : Text) → SettleViaCheckoutResult
      → (fresh : Text) → Action Run
  end_attempt settlement attempt_num attempt_id provider_order_id result fresh = do
    tx (fail_driven settlement.id attempt_id provider_order_id result)
    next_attempt settlement (attempt_num + 1) attempt_id fresh

  unfoldable pub capture_driven :
      SettlementRow
      → (attempt_num : ℕ) → (attempt_id provider_order_id : Text) → SettleViaCheckoutResult
      → (fresh : Text) → Option Text
      → Action Run
  capture_driven settlement attempt_num attempt_id provider_order_id result fresh none =
      end_attempt settlement attempt_num attempt_id provider_order_id result fresh
  capture_driven settlement attempt_num attempt_id provider_order_id result fresh
        (some payment_id) =
      do
        captured ←
            apply_capture crypto
              (record {
                attempt_id = attempt_id;
                attempt_state = AttemptState.initiated;
                settlement_id = settlement.id;
                provider_order_id = some provider_order_id;
              })
              payment_id
        if captured
            then pure (finished (ExecutionOutcome.captured attempt_id payment_id))
            else end_attempt settlement attempt_num attempt_id provider_order_id result fresh

  -- After `settleViaCheckout`, whose rejection ends the run.
  unfoldable pub driven :
      SettlementRow
      → (attempt_num : ℕ) → (attempt_id provider_order_id : Text) → Reply SettleViaCheckoutResult
      → (fresh : Text) → Action Run
  driven settlement attempt_num attempt_id provider_order_id (Reply.failed message) fresh =
      throw provider_error
  driven settlement attempt_num attempt_id provider_order_id (Reply.replied result) fresh =
      capture_driven settlement attempt_num attempt_id provider_order_id result fresh
        (captured_payment result)

  abbrev pub supersede_found : Option AttemptRow → Action (Unit {0})
  supersede_found none = pure tt
  supersede_found (some row) =
      if not (is_active row.state)
      then pure tt
      else do _ ← moves (transition_attempt row.id row.state AttemptState.superseded); pure tt

  unfoldable pub supersede_if_active : (attempt_id : Text) → Action (Unit {0})
  supersede_if_active attempt_id = do
    row ← gets (λ db. find (λ a. a.id === attempt_id) db.attempts)
    supersede_found row

  -- The transaction of a payment link.
  unfoldable pub issue_link :
      (settlement_id last_attempt_id link_attempt_id receipt : Text)
      → RazorpayPaymentLink
      → Action (Unit {0})
  issue_link settlement_id last_attempt_id link_attempt_id receipt link = do
    supersede_if_active last_attempt_id
    insert_attempt (
        new_attempt link_attempt_id settlement_id Method.payment_link
          AttemptState.awaiting_confirmation receipt (some link.id))
    log_event crypto settlement_id (text "payment_link_issued") (text "facilitator") (
        obj (
          field (text "attempt_id") (str link_attempt_id) (
            field (text "provider_link_id") (str link.id)
              (field (text "short_url") (str link.short_url) end))))

  -- After `createPaymentLink`.
  unfoldable pub link_created :
      SettlementRow
      → (last_attempt_id link_attempt_id receipt : Text) → Reply RazorpayPaymentLink
      → Action ExecutionOutcome
  link_created settlement last_attempt_id link_attempt_id receipt (Reply.failed message) = do
    tx (
        log_event crypto settlement.id (text "reconciliation_flagged") (text "facilitator") (
          obj (
            field (text "reason") (str (text "payment_link_create_failed"))
              (field (text "detail") (str message) end))))
    pure ExecutionOutcome.stalled
  link_created settlement last_attempt_id link_attempt_id receipt (Reply.replied link) = do
    tx (issue_link settlement.id last_attempt_id link_attempt_id receipt link)
    pure (ExecutionOutcome.payment_link_issued link_attempt_id link.short_url)
