-- ===== src/Facilitator/StateMachine/Moves.antt =====
-- packages/facilitator/src/state-machine.ts: what a compare-and-swap that returns has done.
use hundi.Common.{
  ◌≡◌, inl, inr, true, false, Option, none, some, find, Text, ok, err, Option-cases, Bool-cases,
  invalid_transition, stale_transition,
}
use hundi.Facilitator.Db.{SettlementState, SettlementRow, Db}
use hundi.Facilitator.Table.{update}
use hundi.Facilitator.StateMachine.{
  can_move, in_state, settlement_moved, settlement_violation, transition_settlement,
}

-- The row that a settlement's move changes, and the database that it leaves.
pub record Moved (id : Text) (from to : SettlementState) (reason : Option Text) (db db' : Db)
    : Type 0 where
  pub row : SettlementRow
  pub legal : can_move from to ≡ true
  pub found : find (in_state id from) db.settlements ≡ some row
  pub allowed : settlement_violation (settlement_moved db.clock to reason row) db.settlements ≡ none
  pub written : db' ≡ record db {
    settlements = update (in_state id from) (settlement_moved db.clock to reason) db.settlements;
  }

module _ (id : Text) (from to : SettlementState) (reason : Option Text) (db db' : Db) where
  pub transition_settlement-Moved :
      transition_settlement id from to reason db ≡ (ok tt, db') → Moved id from to reason db db'
  unfolding transition_settlement
  transition_settlement-Moved e = elim (Bool-cases (can_move from to)) [
    | inr illegal ↦ absurd (cc (e, illegal))
    | inl legal ↦ elim (Option-cases (find (in_state id from) db.settlements)) [
      | inl missing ↦ absurd (cc (e, legal, missing))
      | inr (row, found) ↦
          elim (Option-cases
            (settlement_violation (settlement_moved db.clock to reason row) db.settlements)) [
              | inr (constraint, bad) ↦ absurd (cc (e, legal, found, bad))
              | inl fine ↦ record {
                row = row;
                legal = legal;
                found = found;
                allowed = fine;
                written = cc (e, legal, found, fine);
              }
            ]
    ]
  ]

module _ (id : Text) (from to : SettlementState) (reason : Option Text) (db : Db) where
  pub transition_settlement-written :
      (row : SettlementRow)
      → can_move from to ≡ true
      → find (in_state id from) db.settlements ≡ some row
      → settlement_violation (settlement_moved db.clock to reason row) db.settlements ≡ none
      → transition_settlement id from to reason db ≡ (
        ok tt,
        record db {
          settlements =
              update (in_state id from) (settlement_moved db.clock to reason) db.settlements;
        },
      )
  unfolding transition_settlement
  transition_settlement-written row legal found fine = cc (legal, found, fine)

  pub transition_settlement-illegal :
      can_move from to ≡ false
      → transition_settlement id from to reason db ≡ (err invalid_transition, db)
  unfolding transition_settlement
  transition_settlement-illegal illegal = cc illegal

  pub transition_settlement-stale :
      can_move from to ≡ true
      → find (in_state id from) db.settlements ≡ none
      → transition_settlement id from to reason db ≡ (err stale_transition, db)
  unfolding transition_settlement
  transition_settlement-stale legal missing = cc (legal, missing)
