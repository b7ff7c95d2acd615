-- ===== src/Facilitator/Executor/Reverify.antt =====
-- packages/facilitator/src/executor.ts: reverifyAndEnterSettling, the gate again before any money
-- moves.
use hundi.Common.{
  ℕ, Bool, true, false, not, Option, none, some, Text, text, find, ◌===◌, if◌then◌else◌,
}
use hundi.Core.Crypto.{Crypto}
use hundi.Core.Verify.Checks.{Gate, passed, rejected, threw, RejectionCode, code_text}
use hundi.Core.Verify.{Pass, verify_chain}
use hundi.Facilitator.Db.{SettlementState, SettlementRow, MandateRow}
use hundi.Facilitator.Action.{Action, pure, throw, gets, lift, tx, moves, ◌>>=◌, ◌>>◌}
use hundi.Facilitator.StateMachine.{is_state, transition_settlement}
use hundi.Facilitator.MandateRepo.{get_mandate_row}
use hundi.Facilitator.VerifyLogic.{build_verify_ctx}
use hundi.Facilitator.SettlementService.{reject_payload, log_event}

pub data ReverifyOutcome : Type 0 where
  entered : SettlementRow → ReverifyOutcome
  stale : ReverifyOutcome
  refused : (reject_reason : Text) → ReverifyOutcome

module _ (crypto : Crypto) where
  -- What follows the move to `rejected`, if the settlement moved.
  unfoldable pub log_refused :
      (settlement_id : Text)
      → RejectionCode
      → (detail : Option Text) → (moved : Bool) → Action ReverifyOutcome
  log_refused settlement_id code detail false = pure stale
  log_refused settlement_id code detail true = do
    log_event crypto settlement_id (text "verify_rejected") (text "facilitator")
        (reject_payload code detail)
    pure (refused (code_text code))

  -- The gate's answer.
  unfoldable pub enter_settling :
      (settlement_id : Text) → SettlementRow → Gate Pass → Action ReverifyOutcome
  enter_settling settlement_id settlement (rejected code detail) = do
    moved ← moves (
        transition_settlement settlement_id SettlementState.approved SettlementState.rejected
          (some (code_text code)))
    log_refused settlement_id code detail moved
  enter_settling settlement_id settlement (passed p) = do
    moved ←
        moves (
          transition_settlement settlement_id SettlementState.approved SettlementState.settling
            none)
    pure (if moved then entered settlement else stale)
  enter_settling settlement_id settlement (threw e) = throw e

  -- The stored intent and the stored cart must still have the hash that was settled on.
  unfoldable pub reverify_known :
      (settlement_id : Text)
      → (now : ℕ) → SettlementRow
      → Option MandateRow
      → Action ReverifyOutcome
  reverify_known settlement_id now settlement none = pure stale
  reverify_known settlement_id now settlement (some mandate_row) = do
    built ← gets (λ db.
        build_verify_ctx crypto db mandate_row.intent settlement.cart now (some settlement_id))
    (ctx, hash) ← lift built
    enter_settling settlement_id settlement (
        if hash === settlement.mandate_cart_hash_hex
        then verify_chain crypto mandate_row.intent settlement.cart ctx
        else rejected RejectionCode.hash_link_mismatch none)

  unfoldable pub reverify_found :
      (settlement_id : Text) → (now : ℕ) → Option SettlementRow → Action ReverifyOutcome
  reverify_found settlement_id now none = pure stale
  reverify_found settlement_id now (some settlement) =
      if not (is_state settlement.state SettlementState.approved) then pure stale else do
        registered ← gets (λ db. get_mandate_row db settlement.mandate_id)
        reverify_known settlement_id now settlement registered

  unfoldable pub reverify_and_enter_settling :
      (settlement_id : Text) → (now : ℕ) → Action ReverifyOutcome
  reverify_and_enter_settling settlement_id now = tx (do
    found ← gets (λ db. find (λ s. s.id === settlement_id) db.settlements)
    reverify_found settlement_id now found)
