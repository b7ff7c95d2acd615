-- ===== src/Facilitator/SettlementService/Decides.antt =====
-- What createSettlement of packages/facilitator/src/settlement-service.ts leaves, for each answer of
-- the gate.
use hundi.Common.{◌≡◌, refl, ◌∙◌, true, none, some, Text, ok, arith, ap, ℕ, is_some}
use hundi.Core.Crypto.{Crypto}
use hundi.Core.Value.{text_of}
use hundi.Core.Mandate.{IntentMandate, CartMandate}
use hundi.Core.Verify.{VerifyCtx, verify_chain}
use hundi.Facilitator.Db.{SettlementState, SettlementRow, Db}
use hundi.Facilitator.Action.{after_ok, ◌>>=◌}
use hundi.Facilitator.MandateRepo.{get_mandate_row}
use hundi.Facilitator.StateMachine.{transition_settlement, settlement_violation, settlement_moved}
use hundi.Facilitator.StateMachine.Exclusive.{IsExclusive}
use hundi.Facilitator.VerifyLogic.{compute_mandate_cart_hash, build_verify_ctx, verify_ctx}
use hundi.Facilitator.SettlementService.{
  new_settlement, settle, verify_reserved, reserve, create_settlement, insert_violation,
}
use hundi.Facilitator.SettlementService.Last.{
  IsFreshId, with_last, last-moves_from, insert-IsExclusive,
}
use hundi.Facilitator.SettlementService.Answers.{startable}

module _ (crypto : Crypto) where
  module _ (settlement_id : Text) (intent : IntentMandate) (cart : CartMandate) (now : ℕ) (db : Db)
      (hash : Text) where
    -- The row when the gate is asked, and the context that it is asked in.
    abbrev pub under_verification : SettlementRow
    under_verification =
        settlement_moved db.clock SettlementState.verifying none
          (new_settlement settlement_id intent cart hash db.clock)

    abbrev pub context_of_gate : VerifyCtx
    context_of_gate =
        verify_ctx crypto (with_last db db.settlements under_verification) intent cart now
          (some settlement_id) hash

    insert_violation-none :
        insert_violation (new_settlement settlement_id intent cart hash db.clock) db ≡ none
        → IsFreshId settlement_id db.settlements
          × (settlement_violation
                (new_settlement settlement_id intent cart hash db.clock)
                db.settlements
              ≡ none)
          × (is_some (get_mandate_row db (text_of intent.mandate_id)) ≡ true)
    unfolding insert_violation
    insert_violation-none fine = ground arith

    -- The gate's context is built.
    context_built :
        compute_mandate_cart_hash crypto intent cart ≡ ok hash
        → build_verify_ctx crypto
            (with_last db db.settlements under_verification)
            intent
            cart
            now
            (some settlement_id)
          ≡ ok (context_of_gate, hash)
    unfolding build_verify_ctx
    context_built hashed = rw hashed refl

    verify_reserved-settles :
        compute_mandate_cart_hash crypto intent cart ≡ ok hash
        → transition_settlement settlement_id SettlementState.created SettlementState.verifying none
            (with_last db db.settlements (new_settlement settlement_id intent cart hash db.clock))
          ≡ (ok tt, with_last db db.settlements under_verification)
        → verify_reserved crypto settlement_id intent cart now
            (with_last db db.settlements (new_settlement settlement_id intent cart hash db.clock))
          ≡ settle crypto settlement_id
              (verify_chain crypto intent cart context_of_gate)
              (with_last db db.settlements under_verification)
    unfolding verify_reserved
    verify_reserved-settles hashed moves = after_ok _ _ moves (
        after_ok _ _ refl (
          after_ok _ _
            (ap (λ r. (r, with_last db db.settlements under_verification)) (context_built hashed))
            refl))

    create_settlement-reserves :
        compute_mandate_cart_hash crypto intent cart ≡ ok hash
        → insert_violation (new_settlement settlement_id intent cart hash db.clock) db ≡ none
        → create_settlement crypto settlement_id intent cart now db
          ≡ verify_reserved crypto settlement_id intent cart now
              (with_last db db.settlements (new_settlement settlement_id intent cart hash db.clock))
    unfolding create_settlement reserve ◌>>=◌
    create_settlement-reserves hashed fine =
        let (fresh, free, known) = insert_violation-none fine in rw known (rw hashed (rw fine refl))

    -- Once the row is in and under verification, what is left is the gate's answer.
    pub create_settlement-settles :
        IsExclusive db.settlements
        → compute_mandate_cart_hash crypto intent cart ≡ ok hash
        → insert_violation (new_settlement settlement_id intent cart hash db.clock) db ≡ none
        → create_settlement crypto settlement_id intent cart now db
          ≡ settle crypto settlement_id
              (verify_chain crypto intent cart context_of_gate)
              (with_last db db.settlements under_verification)
    create_settlement-settles h hashed fine =
        let (fresh, free, known) = insert_violation-none fine in
        let row = new_settlement settlement_id intent cart hash db.clock in
        let (moves, exclusive) =
          last-moves_from db db.settlements row SettlementState.verifying none
            SettlementState.created refl fresh startable
            (insert-IsExclusive db.settlements row free h) in
        create_settlement-reserves hashed fine ∙ verify_reserved-settles hashed moves
