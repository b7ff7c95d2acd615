-- ===== src/Facilitator/App/Solvent.antt =====
-- No sequence of requests spends more of a mandate than its human signed.
use hundi.Facilitator.Wallet.Registers.{
  revoke_mandate-IsSolvent, insert_mandate-IsSolvent, insert_settlement-IsSolvent,
  bump_kicks-IsSolvent,
}
use hundi.Facilitator.Sweep.Rules.{bump_kicks}
use hundi.Facilitator.Executor.Attempts.{insert_attempt}
use hundi.Facilitator.Wallet.Entering.{
  reverify_and_enter_settling-IsSolvent, move-IsSolvent, append_ledger-IsSolvent,
  same_wallet-IsSolvent,
}
use hundi.Facilitator.StateMachine.{transition_attempt, SettlementState-discrete}
use hundi.Common.{◌∷◌, ℕ, ◌≤◌, ◌≡◌, refl, some, List, [], Text, arith}
use hundi.Core.Crypto.{Crypto}
use hundi.Core.Value.{nat_of}
use hundi.Core.Mandate.{IntentMandate}
use hundi.Facilitator.Db.{Db, AttemptState, SettlementRow, AttemptRow, MandateRow}
use hundi.Facilitator.Action.{Action}
use hundi.Facilitator.Table.{total}
use hundi.Facilitator.MandateRepo.{get_mandate_row, get_captured_spend, captured_amount}
use hundi.Facilitator.App.{Request, serve_all}
use hundi.Facilitator.Preserves.{Laws, Preserves}
use hundi.Facilitator.Preserves.Requests.{serve_all-Preserves}
use hundi.Facilitator.Wallet.{committed, committed_amount, IsSolventDb}

captured-le-committed :
    (mandate_id : Text) (rows : List SettlementRow)
    → total (captured_amount mandate_id) rows ≤ total (committed_amount mandate_id) rows
unfolding total SettlementState-discrete
captured-le-committed mandate_id [] = omega arith
captured-le-committed mandate_id (r ∷ rows) = ground (arith, captured-le-committed mandate_id rows)

module _ (crypto : Crypto) where
  elsewhere :
      {A : Type 0} (m : Action A)
      → ((db : Db) → ((m db).1.mandates ≡ db.mandates) × ((m db).1.settlements ≡ db.settlements))
      → Preserves IsSolventDb m
  unfolding Preserves
  elsewhere m h db i = same_wallet-IsSolvent crypto db (m db).1 (h db).0 (h db).1 i

  transition_attempt-IsSolvent :
      (id : Text) (from to : AttemptState) → Preserves IsSolventDb (transition_attempt id from to)
  unfolding transition_attempt
  transition_attempt-IsSolvent id from to = elsewhere _ (λ db. ground arith)

  insert_attempt-IsSolvent : (row : ℕ → AttemptRow) → Preserves IsSolventDb (insert_attempt row)
  unfolding insert_attempt
  insert_attempt-IsSolvent row = elsewhere _ (λ db. ground arith)

  bumps-IsSolvent : (id : Text) → Preserves IsSolventDb (bump_kicks id)
  unfolding Preserves
  bumps-IsSolvent id db h = bump_kicks-IsSolvent id db h

  IsSolventDb-Laws : Laws crypto IsSolventDb
  IsSolventDb-Laws = record {
    other = λ db db' u i. same_wallet-IsSolvent crypto db db' u.0 u.1 i;
    append = append_ledger-IsSolvent crypto;
    insert_attempt = insert_attempt-IsSolvent;
    move_attempt = transition_attempt-IsSolvent;
    set_payment = λ id payment. elsewhere _ (λ db. (refl, refl));
    set_order = λ id order. elsewhere _ (λ db. (refl, refl));
    insert_settlement = insert_settlement-IsSolvent;
    move_settlement = move-IsSolvent crypto;
    enter_settling = reverify_and_enter_settling-IsSolvent crypto;
    bump_kicks = bumps-IsSolvent;
    insert_mandate = insert_mandate-IsSolvent;
    revoke_mandate = revoke_mandate-IsSolvent;
  }

  -- From a solvent database, whatever happens, in any order: what a registered mandate has spent,
  -- with what is being spent, is at most the ceiling of the intent that its human signed, and the
  -- database is solvent again.
  pub serve_all-solvent :
      (requests : List Request) (db : Db) (mandate_id : Text) (m : MandateRow)
      → IsSolventDb db
      → get_mandate_row (serve_all crypto requests db) mandate_id ≡ some m
      → IsSolventDb (serve_all crypto requests db)
        × (get_captured_spend (serve_all crypto requests db) mandate_id
            ≤ committed mandate_id (serve_all crypto requests db).settlements)
        × (committed mandate_id (serve_all crypto requests db).settlements
            ≤ nat_of (IntentMandate.ceiling_paise m.intent))
  unfolding get_mandate_row get_captured_spend committed IsSolventDb
  serve_all-solvent requests db mandate_id m h found =
      let after = serve_all-Preserves crypto IsSolventDb IsSolventDb-Laws requests db h in
      (
        after,
        captured-le-committed mandate_id (serve_all crypto requests db).settlements,
        after.within mandate_id m found,
      )
