-- ===== src/Facilitator/Preserves/Entering.antt =====
-- reverifyAndEnterSettling of packages/facilitator/src/executor.ts preserves what its writes do.
use hundi.Facilitator.MandateRepo.{get_mandate_row}
use hundi.Facilitator.VerifyLogic.{build_verify_ctx}
use hundi.Facilitator.StateMachine.{transition_settlement}
use hundi.Facilitator.Ledger.{append_ledger, AppendLedgerInput}
use hundi.Common.{ℕ, Bool, true, false, Option, none, some, Text, find, ◌===◌, err}
use hundi.Core.Crypto.{Crypto}
use hundi.Core.Verify.{Pass}
use hundi.Core.Verify.Checks.{Gate, passed, rejected, threw, RejectionCode}
use hundi.Facilitator.Db.{Db, SettlementState, SettlementRow, MandateRow}
use hundi.Facilitator.Executor.Reverify.{
  log_refused, enter_settling, reverify_known, reverify_found, reverify_and_enter_settling,
}
use hundi.Facilitator.Preserves.{
  Preserves, Preserves->>=, Preserves-tx, Preserves-moves, Preserves-pure, Preserves-gets,
  Preserves-lift, Preserves-still, Preserves-if,
}

module _ (crypto : Crypto) (P : Db → Type 0)
    (append : (input : AppendLedgerInput) → Preserves P (append_ledger crypto input))
    (move : (id : Text) (from to : SettlementState) (reason : Option Text)
      → Preserves P (transition_settlement id from to reason)) where
  log_refused-Preserves :
      (id : Text) (code : RejectionCode) (detail : Option Text) (moved : Bool)
      → Preserves P (log_refused crypto id code detail moved)
  unfolding log_refused
  log_refused-Preserves id code detail false = Preserves-pure P _
  log_refused-Preserves id code detail true =
      Preserves->>= P _ _ (Preserves->>= P _ _ (append _) (λ _. Preserves-pure P tt))
        (λ _. Preserves-pure P _)

  enter_settling-Preserves :
      (id : Text) (settlement : SettlementRow) (g : Gate Pass)
      → Preserves P (enter_settling crypto id settlement g)
  unfolding enter_settling
  enter_settling-Preserves id settlement (rejected code detail) =
      Preserves->>= P _ _ (Preserves-moves P _ (move id _ _ _))
        (λ moved. log_refused-Preserves id code detail moved)
  enter_settling-Preserves id settlement (passed p) =
      Preserves->>= P _ _ (Preserves-moves P _ (move id _ _ _)) (λ moved. Preserves-pure P _)
  enter_settling-Preserves id settlement (threw e) = Preserves-still P (λ db. err e)

  reverify_known-Preserves :
      (id : Text) (now : ℕ) (settlement : SettlementRow) (registered : Option MandateRow)
      → Preserves P (reverify_known crypto id now settlement registered)
  unfolding reverify_known
  reverify_known-Preserves id now settlement none = Preserves-pure P _
  reverify_known-Preserves id now settlement (some m) =
      Preserves->>= P _ _
        (Preserves-gets P (λ db. build_verify_ctx crypto db m.intent settlement.cart now (some id)))
        (λ built.
          Preserves->>= P _ _ (Preserves-lift P built)
            (λ c. enter_settling-Preserves id settlement _))

  reverify_found-Preserves :
      (id : Text) (now : ℕ) (found : Option SettlementRow)
      → Preserves P (reverify_found crypto id now found)
  unfolding reverify_found
  reverify_found-Preserves id now none = Preserves-pure P _
  reverify_found-Preserves id now (some settlement) = Preserves-if P _ _ _ (Preserves-pure P _) (
      Preserves->>= P _ _ (Preserves-gets P (λ db. get_mandate_row db settlement.mandate_id))
        (λ registered. reverify_known-Preserves id now settlement registered))

  pub reverify_and_enter_settling-Preserves :
      (id : Text) (now : ℕ) → Preserves P (reverify_and_enter_settling crypto id now)
  unfolding reverify_and_enter_settling
  reverify_and_enter_settling-Preserves id now = Preserves-tx P _ (
      Preserves->>= P _ _ (Preserves-gets P (λ db. find (λ s. s.id === id) db.settlements))
        (λ found. reverify_found-Preserves id now found))
