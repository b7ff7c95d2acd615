-- ===== src/Facilitator/Reconcile/Captures.antt =====
-- What applyCapture of packages/facilitator/src/reconcile.ts does to a wallet.
use hundi.Common.{
  ◌≡◌, refl, ◌∙◌, sym, ap, ◌+◌, ℕ, Bool, true, false, Option, none, some, find, Text, ok, arith,
}
use hundi.Core.Crypto.{Crypto}
use hundi.Facilitator.Db.{SettlementState, AttemptState, SettlementRow, Db}
use hundi.Facilitator.Action.{>>=-returned, tx-returned, moves-true}
use hundi.Facilitator.Table.{total, total-update, find_holds}
use hundi.Facilitator.Keeps.{Keeps, settlements_of, transition_attempt-Keeps, append_ledger-Keeps}
use hundi.Facilitator.StateMachine.{
  SettlementState-discrete, in_state, settlement_moved, transition_settlement, transition_attempt,
}
use hundi.Facilitator.StateMachine.Moves.{Moved, transition_settlement-Moved}
use hundi.Facilitator.MandateRepo.{get_captured_spend, captured_amount}
use hundi.Facilitator.Reconcile.{
  CaptureTarget, apply_capture, capture_settlement, log_capture, set_payment,
}

in_state-captured_amount :
    (id : Text) (clock : ℕ) (reason : Option Text) (row : SettlementRow)
    → in_state id SettlementState.settling row ≡ true
    → (captured_amount row.mandate_id row ≡ 0)
      × (captured_amount row.mandate_id (settlement_moved clock SettlementState.captured reason row)
          ≡ row.amount_paise)
unfolding SettlementState-discrete
in_state-captured_amount id clock reason row e = ground arith

-- A settlement's move to `captured` adds its amount to what its mandate has spent.
pub Moved-captured_spend :
    (id : Text) (reason : Option Text) (db db' : Db)
    → (m : Moved id SettlementState.settling SettlementState.captured reason db db')
    → get_captured_spend db' m.row.mandate_id
      ≡ get_captured_spend db m.row.mandate_id + m.row.amount_paise
unfolding get_captured_spend
Moved-captured_spend id reason db db' m =
    let p = in_state id SettlementState.settling in
    let f = settlement_moved db.clock SettlementState.captured reason in
    let w = captured_amount m.row.mandate_id in
    let counted = total-update w p f db.settlements {r = m.row} m.found in
    let (before, after) =
      in_state-captured_amount id db.clock reason m.row (find_holds p db.settlements m.found) in
    ap (λ d. total w d.settlements) m.written ∙ omega (arith, counted, before, after)

module _ (crypto : Crypto) (target : CaptureTarget) (payment_id : Text) where
  log_capture-true :
      (moved : Bool) (db db' : Db)
      → log_capture crypto target payment_id moved db ≡ (ok true, db')
      → (moved ≡ true) × (db'.settlements ≡ db.settlements)
  unfolding log_capture Keeps
  log_capture-true false db db' e = absurd (cc e)
  log_capture-true true db db' e =
      let (u, db1, logged, rest) = >>=-returned _ _ db e in
      let (entry, db2, appended, done) = >>=-returned _ _ db logged in
      let kept : db2.settlements ≡ db.settlements =
        ap (λ r. r.1.settlements) (sym appended)
        ∙ append_ledger-Keeps settlements_of (λ _ _. refl) crypto _ db in
      (refl, cc (rest, done, kept))

  capture_settlement-true :
      (moved : Bool) (db1 db' : Db)
      → capture_settlement crypto target payment_id moved db1 ≡ (ok true, db')
      → (moved ≡ true)
        × ((db2 : Db) × Moved target.settlement_id SettlementState.settling SettlementState.captured
              none
              (set_payment target.attempt_id payment_id db1)
              db2
            × (db'.settlements ≡ db2.settlements))
  unfolding capture_settlement
  capture_settlement-true false db1 db' e = absurd (cc e)
  capture_settlement-true true db1 db' e =
      let (u, db2, stored, rest) = >>=-returned _ _ db1 e in
      let (moved, db3, settled, logged) = >>=-returned _ _ db2 rest in
      let (was_moved, same) = log_capture-true moved db3 db' logged in
      let paid = set_payment target.attempt_id payment_id db1 in
      (
        refl,
        (
          db3,
          transition_settlement-Moved target.settlement_id SettlementState.settling
              SettlementState.captured none paid db3
              (moves-true
                (transition_settlement target.settlement_id SettlementState.settling
                  SettlementState.captured none)
                paid (cc (stored, settled, was_moved))),
          same,
        ),
      )

  apply_capture-steps :
      (db db' : Db)
      → apply_capture crypto target payment_id db ≡ (ok true, db')
      → (db1 : Db) × (db2 : Db) × (transition_attempt target.attempt_id target.attempt_state
            AttemptState.captured db
          ≡ (ok tt, db1))
        × Moved target.settlement_id SettlementState.settling SettlementState.captured none
            (set_payment target.attempt_id payment_id db1)
            db2
        × (db'.settlements ≡ db2.settlements)
  unfolding apply_capture
  apply_capture-steps db db' e =
      let (moved, db1, first, rest) = >>=-returned _ _ db (tx-returned _ db e) in
      let (was_moved, (db2, m, same)) = capture_settlement-true moved db1 db' rest in
      (
        db1,
        db2,
        moves-true (transition_attempt target.attempt_id target.attempt_state AttemptState.captured)
            db (cc (first, was_moved)),
        m,
        same,
      )

  -- If applyCapture returns true, the settlement was settling, and what its mandate has spent grows by
  -- exactly its amount.
  pub apply_capture-spends :
      (db db' : Db)
      → apply_capture crypto target payment_id db ≡ (ok true, db')
      → (row : SettlementRow) × (find
            (in_state target.settlement_id SettlementState.settling)
            db.settlements
          ≡ some row)
        × (get_captured_spend db' row.mandate_id
            ≡ get_captured_spend db row.mandate_id + row.amount_paise)
  unfolding get_captured_spend Keeps
  apply_capture-spends db db' e =
      let (db1, db2, first, m, same) = apply_capture-steps db db' e in
      let kept : db1.settlements ≡ db.settlements =
        ap (λ r. r.1.settlements) (sym first)
        ∙ transition_attempt-Keeps target.attempt_id target.attempt_state AttemptState.captured
            db in
      let spent =
        Moved-captured_spend target.settlement_id none
          (set_payment target.attempt_id payment_id db1) db2 m in
      (m.row, cc (m.found, kept), cc (spent, kept, same))
