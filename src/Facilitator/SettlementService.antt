-- ===== src/Facilitator/SettlementService.antt =====
-- packages/facilitator/src/settlement-service.ts: a settlement is reserved, put through the gate,
-- and moved to where the gate's answer sends it. The caller runs it in a transaction.
pub mod Last
pub mod Keys
pub mod Answers
pub mod Decides
pub mod Ceiling
use hundi.Common.{
  ℕ, Bool, true, false, Option, none, some, ◌∷◌, [], ◌++◌, Text, text, any, ◌===◌, is_some,
  if◌then◌else◌, Constraint, sqlite_constraint,
}
use hundi.Core.Value.{Value, str, obj, end, field, nat_of, text_of}
use hundi.Core.Crypto.{Crypto}
use hundi.Core.Mandate.{IntentMandate, CartMandate}
use hundi.Core.Verify.Checks.{Gate, passed, rejected, threw, RejectionCode, code_text}
use hundi.Core.Verify.{Pass, verify_chain}
use hundi.Facilitator.Db.{
  SettlementState, SettlementRow, ResponseBody, settlement_body, error_body, Db,
}
use hundi.Facilitator.Action.{Action, pure, throw, gets, lift, modify, ◌>>=◌, ◌>>◌}
use hundi.Facilitator.StateMachine.{is_state, settlement_violation, transition_settlement}
use hundi.Facilitator.Ledger.{append_ledger}
use hundi.Facilitator.MandateRepo.{get_mandate_row}
use hundi.Facilitator.VerifyLogic.{compute_mandate_cart_hash, build_verify_ctx}

pub record CreateSettlementOutcome : Type 0 where
  pub status : ℕ
  pub body : ResponseBody

-- The row as it is inserted.
abbrev pub new_settlement :
    (settlement_id : Text)
    → IntentMandate
    → CartMandate
    → (hash : Text) → (clock : ℕ) → SettlementRow
new_settlement settlement_id intent cart hash clock = record {
  id = settlement_id;
  mandate_id = text_of intent.mandate_id;
  cart = cart;
  mandate_cart_hash_hex = hash;
  amount_paise = nat_of cart.total_paise;
  merchant_id = text_of cart.merchant_id;
  state = SettlementState.created;
  reject_reason = none;
  entered_at = λ s. if is_state s SettlementState.created then some clock else none;
  kick_count = 0;
}

-- The constraint that an INSERT of the row violates.
unfoldable pub insert_violation : SettlementRow → Db → Option Constraint
insert_violation row db =
    if any (λ s. s.id === row.id) db.settlements
    then some Constraint.primary_key
    else elim (settlement_violation row db.settlements) [
      | some constraint ↦ some constraint
      | none ↦
          if is_some (get_mandate_row db row.mandate_id) then none else some Constraint.foreign_key
    ]

abbrev pub reject_payload : RejectionCode → Option Text → Value
reject_payload code none = obj (field (text "reason") (str (code_text code)) end)
reject_payload code (some detail) =
    obj (field (text "reason") (str (code_text code)) (field (text "detail") (str detail) end))

-- `payload: { mandate_cart_hash_hex }`
abbrev pub hash_payload : Text → Value
hash_payload hash = obj (field (text "mandate_cart_hash_hex") (str hash) end)

module _ (crypto : Crypto) where
  abbrev pub log_event : Text → (event_type actor : Text) → Value → Action (Unit {0})
  log_event settlement_id event_type actor payload = do
    _ ← append_ledger crypto (record {
      event_type = event_type;
      settlement_id = some settlement_id;
      actor = actor;
      payload = payload;
    })
    pure tt

  unfoldable pub settle_rejected :
      (settlement_id : Text) → RejectionCode → Option Text → Action CreateSettlementOutcome
  settle_rejected settlement_id code detail = do
    transition_settlement settlement_id SettlementState.verifying SettlementState.rejected
        (some (code_text code))
    log_event settlement_id (text "verify_rejected") (text "facilitator")
        (reject_payload code detail)
    pure (record {
      status = 202;
      body = settlement_body settlement_id SettlementState.rejected (some (code_text code));
    })

  -- A passed gate moves the settlement to `pending_approval` or `approved`.
  unfoldable pub settle_passed :
      (settlement_id : Text)
      → (needs_approval : Bool) → (hash : Text) → Action CreateSettlementOutcome
  settle_passed settlement_id true hash = do
    transition_settlement settlement_id SettlementState.verifying SettlementState.verified none
    transition_settlement settlement_id SettlementState.verified SettlementState.pending_approval
        none
    log_event settlement_id (text "approval_requested") (text "facilitator") (hash_payload hash)
    pure (record {
      status = 202;
      body = settlement_body settlement_id SettlementState.pending_approval none;
    })
  settle_passed settlement_id false hash = do
    transition_settlement settlement_id SettlementState.verifying SettlementState.verified none
    transition_settlement settlement_id SettlementState.verified SettlementState.approved none
    log_event settlement_id (text "verify_passed") (text "facilitator") (hash_payload hash)
    pure (record {
      status = 202;
      body = settlement_body settlement_id SettlementState.approved none;
    })

  unfoldable pub settle : (settlement_id : Text) → Gate Pass → Action CreateSettlementOutcome
  settle settlement_id (passed p) =
      settle_passed settlement_id p.needs_approval p.mandate_cart_hash_hex
  settle settlement_id (rejected code detail) = settle_rejected settlement_id code detail
  settle settlement_id (threw e) = throw e

  -- From `created` on.
  unfoldable pub verify_reserved :
      (settlement_id : Text)
      → IntentMandate
      → CartMandate
      → (now : ℕ) → Action CreateSettlementOutcome
  verify_reserved settlement_id intent cart now = do
    transition_settlement settlement_id SettlementState.created SettlementState.verifying none
    built ← gets (λ db. build_verify_ctx crypto db intent cart now (some settlement_id))
    (ctx, hash) ← lift built
    settle settlement_id (verify_chain crypto intent cart ctx)

  -- The `try` around the INSERT.
  unfoldable pub reserve :
      SettlementRow
      → Option Constraint
      → Action CreateSettlementOutcome
      → Action CreateSettlementOutcome
  reserve row none next = do
    modify (λ db. record db { settlements = db.settlements ++ row ∷ [] })
    next
  reserve row (some Constraint.one_settlement_per_cart) next =
      pure (record { status = 409; body = error_body (text "DUPLICATE_CART") })
  reserve row (some Constraint.one_live_settlement_per_mandate) next =
      pure (record { status = 409; body = error_body (text "ALLOWANCE_RESERVED") })
  reserve row (some constraint) next = throw (sqlite_constraint constraint)

  unfoldable pub create_known :
      (settlement_id : Text)
      → IntentMandate
      → CartMandate
      → (now : ℕ) → Action CreateSettlementOutcome
  create_known settlement_id intent cart now = do
    hash ← lift (compute_mandate_cart_hash crypto intent cart)
    clock ← gets (λ db. db.clock)
    let row = new_settlement settlement_id intent cart hash clock
    violation ← gets (insert_violation row)
    reserve row violation (verify_reserved settlement_id intent cart now)

  unfoldable pub create_settlement :
      (settlement_id : Text)
      → IntentMandate
      → CartMandate
      → (now : ℕ) → Action CreateSettlementOutcome
  unfolding create_known
  create_settlement settlement_id intent cart now = do
    known ← gets (λ db. is_some (get_mandate_row db (text_of intent.mandate_id)))
    if known
        then create_known settlement_id intent cart now
        else pure (record { status = 404; body = error_body (text "MANDATE_UNKNOWN") })
