-- ===== src/Facilitator/SettlementService/Ceiling.antt =====
-- What a mandate has spent, with a settlement that the gate let through, stays within its ceiling.
use hundi.Common.{
  ok, none, Option, ◌≢◌, sym, false, refl, some, ap, ◌≡◌, ◌∙◌, ◌+◌, ◌≤◌, ℕ, Text, arith,
}
use mathlib.Core.Path.{subst}
use hundi.Core.Value.{nat_of, text_of}
use hundi.Core.Crypto.{Crypto}
use hundi.Core.Mandate.{IntentMandate, CartMandate}
use hundi.Core.Verify.{Pass, verify_chain, or_default}
use hundi.Core.Verify.Checks.{RejectionCode, Gate, passed, rejected, threw}
use hundi.Core.Verify.Passes.{verify_chain-passes_iff}
use hundi.Facilitator.Db.{Db, SettlementState, SettlementRow, settlement_body}
use hundi.Facilitator.Table.{total-append_one}
use hundi.Facilitator.StateMachine.{SettlementState-discrete, is_state}
use hundi.Facilitator.MandateRepo.{get_captured_spend, captured_amount}
use hundi.Facilitator.VerifyLogic.{verify_ctx, compute_mandate_cart_hash}
use hundi.Facilitator.SettlementService.Decides.{
  context_of_gate, under_verification, create_settlement-settles,
}
use hundi.Facilitator.Action.{>>=-returned}
use hundi.Facilitator.StateMachine.Exclusive.{IsExclusive}
use hundi.Facilitator.SettlementService.{
  create_settlement, new_settlement, insert_violation, settle, settle_rejected,
}

captured_amount_live :
    (mandate_id : Text) (row : SettlementRow)
    → is_state row.state SettlementState.captured ≡ false
    → captured_amount mandate_id row ≡ 0
captured_amount_live mandate_id row e = ground arith

not_captured : is_state SettlementState.verifying SettlementState.captured ≡ false
unfolding SettlementState-discrete
not_captured = refl

module _ (crypto : Crypto) (settlement_id : Text) (intent : IntentMandate) (cart : CartMandate)
    (now : ℕ) (db : Db) (hash : Text) where
  -- The settlement itself, not captured yet, does not count.
  spent_in_context :
      (context_of_gate crypto settlement_id intent cart now db hash).spent_paise
      ≡ some (get_captured_spend db (text_of intent.mandate_id))
  unfolding verify_ctx get_captured_spend SettlementState-discrete
  spent_in_context = ap some (
      total-append_one (captured_amount (text_of intent.mandate_id)) db.settlements
        (under_verification crypto settlement_id intent cart now db hash)
      ∙ omega (
        arith,
        captured_amount_live (text_of intent.mandate_id)
            (under_verification crypto settlement_id intent cart now db hash) not_captured,
      ))

  passed-within_ceiling :
      (p : Pass)
      → verify_chain crypto intent cart
          (context_of_gate crypto settlement_id intent cart now db hash)
        ≡ passed p
      → get_captured_spend db (text_of intent.mandate_id) + nat_of cart.total_paise
        ≤ nat_of intent.ceiling_paise
  passed-within_ceiling p e =
      subst (λ spent. or_default spent 0 + nat_of cart.total_paise ≤ nat_of intent.ceiling_paise)
        spent_in_context
        ((verify_chain-passes_iff intent cart
            (context_of_gate crypto settlement_id intent cart now db hash) crypto).0
          (p, e) RejectionCode.amount_exceeds_ceiling (omega arith))

  settle_rejected-state :
      (code : RejectionCode) (detail : Option Text) (before db' : Db) (s : SettlementState)
      (reason : Option Text) (status : ℕ)
      → settle_rejected crypto settlement_id code detail before
        ≡ (ok (record { status = status; body = settlement_body settlement_id s reason }), db')
      → s ≡ SettlementState.rejected
  unfolding settle_rejected
  settle_rejected-state code detail before db' s reason status e =
      let (u, db1, moved, rest) = >>=-returned _ _ before e in
      let (v, db2, logged, done) = >>=-returned _ _ db1 rest in cc done

  settle-passed :
      (g : Gate Pass) (before db' : Db) (s : SettlementState) (reason : Option Text) (status : ℕ)
      → settle crypto settlement_id g before
        ≡ (ok (record { status = status; body = settlement_body settlement_id s reason }), db')
      → s ≢ SettlementState.rejected
      → (p : Pass) × (g ≡ passed p)
  unfolding settle
  settle-passed (passed p) before db' s reason status e other = (p, refl)
  settle-passed (rejected code detail) before db' s reason status e other =
      absurd (other (settle_rejected-state code detail before db' s reason status e))
  settle-passed (threw x) before db' s reason status e other = absurd (cc e)

  -- If createSettlement answers with a settlement that is not rejected, what its mandate has spent so
  -- far, with the cart, is at most the ceiling of the intent; the rows satisfy the indexes before, the
  -- hash of the pair is taken, and the row violates no constraint.
  pub create_settlement-within_ceiling :
      (s : SettlementState) (reason : Option Text) (status : ℕ) (db' : Db)
      → IsExclusive db.settlements
      → compute_mandate_cart_hash crypto intent cart ≡ ok hash
      → insert_violation (new_settlement settlement_id intent cart hash db.clock) db ≡ none
      → create_settlement crypto settlement_id intent cart now db
        ≡ (ok (record { status = status; body = settlement_body settlement_id s reason }), db')
      → s ≢ SettlementState.rejected
      → get_captured_spend db (text_of intent.mandate_id) + nat_of cart.total_paise
        ≤ nat_of intent.ceiling_paise
  create_settlement-within_ceiling s reason status db' h hashed fine e other =
      let (p, q) =
        settle-passed _ _ db' s reason status
          (sym
              (create_settlement-settles crypto settlement_id intent cart now db hash h hashed fine)
            ∙ e)
          other in
      passed-within_ceiling p q
