-- ===== src/Facilitator/Executor/Steps.antt =====
-- packages/facilitator/src/executor.ts: runOnce and resumeSettlingRun, one step after another.
use hundi.Common.{
  ℕ, not, ◌&&◌, Option, none, some, List, [], ◌∷◌, Text, any, find, ◌===◌, if◌then◌else◌,
}
use hundi.Core.Crypto.{Crypto}
use hundi.Facilitator.Db.{SettlementState, SettlementRow}
use hundi.Facilitator.Action.{Action, pure, gets, ◌>>=◌}
use hundi.Facilitator.StateMachine.{is_state, is_active}
use hundi.Facilitator.Reconcile.{Reply}
use hundi.Facilitator.Executor.{
  ExecutionOutcome, SettleViaCheckoutResult, RazorpayPaymentLink, Run, creating_order, driving,
  creating_link, finished,
}
use hundi.Facilitator.Executor.Reverify.{
  ReverifyOutcome, entered, stale, refused, reverify_and_enter_settling,
}
use hundi.Facilitator.Executor.Attempts.{run_attempt_loop, order_created, driven, link_created}

-- What ends an `await`: the answer to whichever call is waited for, and the identifier that
-- randomUUID gives next.
pub record Wake : Type 0 where
  pub order : Reply Text
  pub checkout : Reply SettleViaCheckoutResult
  pub link : Reply RazorpayPaymentLink
  pub fresh : Text

module _ (crypto : Crypto) where
  abbrev pub after_reverify : (fresh : Text) → ReverifyOutcome → Action Run
  after_reverify fresh (entered settlement) = run_attempt_loop crypto settlement fresh
  after_reverify fresh stale = pure (finished ExecutionOutcome.no_op)
  after_reverify fresh (refused reason) = pure (finished (ExecutionOutcome.rejected reason))

  -- The first step of a run.
  unfoldable pub run_once : (settlement_id : Text) → (now : ℕ) → (fresh : Text) → Action Run
  run_once settlement_id now fresh = do
    reverify ← reverify_and_enter_settling crypto settlement_id now
    after_reverify fresh reverify

  abbrev pub resume_found : (fresh : Text) → Option SettlementRow → Action Run
  resume_found fresh none = pure (finished ExecutionOutcome.no_op)
  resume_found fresh (some settlement) =
      if not (is_state settlement.state SettlementState.settling)
      then pure (finished ExecutionOutcome.no_op)
      else do
        active ←
            gets (λ db.
              any (λ a. (a.settlement_id === settlement.id) && is_active a.state) db.attempts)
        if active
            then pure (finished ExecutionOutcome.no_op)
            else run_attempt_loop crypto settlement fresh

  -- The first step of a run that goes on where another stopped.
  unfoldable pub resume_settling_run : (settlement_id fresh : Text) → Action Run
  resume_settling_run settlement_id fresh = do
    found ← gets (λ db. find (λ s. s.id === settlement_id) db.settlements)
    resume_found fresh found

  -- The step after an `await`.
  unfoldable pub step : Run → Wake → Action Run
  step (creating_order settlement attempt_num attempt_id) wake =
      order_created crypto settlement attempt_num attempt_id wake.order wake.fresh
  step (driving settlement attempt_num attempt_id provider_order_id) wake =
      driven crypto settlement attempt_num attempt_id provider_order_id wake.checkout wake.fresh
  step (creating_link settlement last_attempt_id link_attempt_id receipt) wake = do
    outcome ← link_created crypto settlement last_attempt_id link_attempt_id receipt wake.link
    pure (finished outcome)
  step (finished outcome) wake = pure (finished outcome)

  -- The steps of a run with no other request between them.
  unfoldable pub steps : Run → List Wake → Action Run
  steps run [] = pure run
  steps run (wake ∷ wakes) = do run' ← step run wake; steps run' wakes
