-- ===== src/Facilitator/Preserves/Execution.antt =====
-- The steps of a run of packages/facilitator/src/executor.ts.
use hundi.Facilitator.StateMachine.{is_active}
use hundi.Facilitator.Executor.Steps.{
  Wake, after_reverify, step, resume_settling_run, resume_found, run_once,
}
use hundi.Facilitator.Executor.Reverify.{ReverifyOutcome}
use hundi.Facilitator.Executor.Attempts.{
  captured_payment, issue_link, fail_driven, fail_uncreated, driver_attempts, link_created,
  supersede_if_active, supersede_found, driven, capture_driven, end_attempt, order_created,
  run_attempt_loop, next_attempt, initiate_attempt,
}
use hundi.Common.{◌&&◌, [], ◌===◌, err, ℕ, ◌+◌, not, find, any, Text, leb, Option, none, some}
use hundi.Core.Crypto.{Crypto}
use hundi.Core.Value.{Value}
use hundi.Facilitator.Db.{Db, SettlementRow, AttemptRow}
use hundi.Facilitator.SettlementService.{log_event}
use hundi.Facilitator.Reconcile.{Reply}
use hundi.Facilitator.Executor.Reverify.{entered, stale, refused}
use hundi.Facilitator.Executor.{
  SettleViaCheckoutResult, RazorpayPaymentLink, max_attempts, Run, creating_order, driving,
  creating_link, finished,
}
use hundi.Facilitator.Preserves.Captures.{apply_capture-Preserves}
use hundi.Facilitator.Preserves.{
  capture_laws, Laws, Preserves, Preserves->>=, Preserves-tx, Preserves-moves, Preserves-pure,
  Preserves-gets, Preserves-still, Preserves-if,
}

module _ (crypto : Crypto) (P : Db → Type 0) (laws : Laws crypto P) where
  pub log_event-Preserves :
      (id event_type actor : Text) (payload : Value)
      → Preserves P (log_event crypto id event_type actor payload)
  log_event-Preserves id event_type actor payload =
      Preserves->>= P _ _ (laws.append _) (λ _. Preserves-pure P tt)

  initiate_attempt-Preserves :
      (settlement_id : Text) (attempt_num : ℕ) (attempt_id : Text)
      → Preserves P (initiate_attempt crypto settlement_id attempt_num attempt_id)
  unfolding initiate_attempt
  initiate_attempt-Preserves settlement_id attempt_num attempt_id =
      Preserves->>= P _ _ (laws.insert_attempt _) (λ _. log_event-Preserves _ _ _ _)

  next_attempt-Preserves :
      (settlement : SettlementRow) (attempt_num : ℕ) (last_attempt_id fresh : Text)
      → Preserves P (next_attempt crypto settlement attempt_num last_attempt_id fresh)
  unfolding next_attempt
  next_attempt-Preserves settlement attempt_num last_attempt_id fresh =
      Preserves-if P (leb attempt_num max_attempts) _ _
        (Preserves->>= P _ _
          (Preserves-tx P _ (initiate_attempt-Preserves settlement.id attempt_num fresh))
          (λ _. Preserves-pure P _))
        (Preserves-pure P _)

  run_attempt_loop-Preserves :
      (settlement : SettlementRow) (fresh : Text)
      → Preserves P (run_attempt_loop crypto settlement fresh)
  unfolding run_attempt_loop
  run_attempt_loop-Preserves settlement fresh =
      Preserves->>= P _ _ (Preserves-gets P (λ db. driver_attempts settlement.id db.attempts))
        (λ existing. next_attempt-Preserves settlement (existing + 1) [] fresh)

  order_created-Preserves :
      (settlement : SettlementRow) (attempt_num : ℕ) (attempt_id : Text) (reply : Reply Text)
      (fresh : Text)
      → Preserves P (order_created crypto settlement attempt_num attempt_id reply fresh)
  unfolding order_created fail_uncreated
  order_created-Preserves settlement attempt_num attempt_id (Reply.failed message) fresh =
      Preserves->>= P _ _
        (Preserves-tx P _
          (Preserves->>= P _ _ (laws.move_attempt _ _ _) (λ _. log_event-Preserves _ _ _ _)))
        (λ _. next_attempt-Preserves settlement (attempt_num + 1) attempt_id fresh)
  order_created-Preserves settlement attempt_num attempt_id (Reply.replied order) fresh =
      Preserves->>= P _ _ (laws.set_order attempt_id order) (λ _. Preserves-pure P _)

  end_attempt-Preserves :
      (settlement : SettlementRow) (attempt_num : ℕ) (attempt_id order : Text)
      (result : SettleViaCheckoutResult) (fresh : Text)
      → Preserves P (end_attempt crypto settlement attempt_num attempt_id order result fresh)
  unfolding end_attempt fail_driven
  end_attempt-Preserves settlement attempt_num attempt_id order result fresh =
      Preserves->>= P _ _
        (Preserves-tx P _ (
          Preserves->>= P _ _ (Preserves-moves P _ (laws.move_attempt _ _ _))
            (λ _. log_event-Preserves _ _ _ _)))
        (λ _. next_attempt-Preserves settlement (attempt_num + 1) attempt_id fresh)

  capture_driven-Preserves :
      (settlement : SettlementRow) (attempt_num : ℕ) (attempt_id order : Text)
      (result : SettleViaCheckoutResult) (fresh : Text) (payment : Option Text)
      → Preserves P
          (capture_driven crypto settlement attempt_num attempt_id order result fresh payment)
  unfolding capture_driven
  capture_driven-Preserves settlement attempt_num attempt_id order result fresh none =
      end_attempt-Preserves settlement attempt_num attempt_id order result fresh
  capture_driven-Preserves settlement attempt_num attempt_id order result fresh (some payment_id) =
      Preserves->>= P _ _
        (apply_capture-Preserves crypto P (capture_laws crypto P laws) _ payment_id)
        (λ captured.
          Preserves-if P captured _ _ (Preserves-pure P _)
            (end_attempt-Preserves settlement attempt_num attempt_id order result fresh))

  driven-Preserves :
      (settlement : SettlementRow) (attempt_num : ℕ) (attempt_id order : Text)
      (reply : Reply SettleViaCheckoutResult) (fresh : Text)
      → Preserves P (driven crypto settlement attempt_num attempt_id order reply fresh)
  unfolding driven
  driven-Preserves settlement attempt_num attempt_id order (Reply.failed message) fresh =
      Preserves-still P (λ db. err _)
  driven-Preserves settlement attempt_num attempt_id order (Reply.replied result) fresh =
      capture_driven-Preserves settlement attempt_num attempt_id order result fresh
        (captured_payment result)

  supersede_found-Preserves : (row : Option AttemptRow) → Preserves P (supersede_found crypto row)
  supersede_found-Preserves none = Preserves-pure P tt
  supersede_found-Preserves (some row) =
      Preserves-if P (not (is_active row.state)) _ _ (Preserves-pure P tt) (
        Preserves->>= P _ _ (Preserves-moves P _ (laws.move_attempt _ _ _))
          (λ _. Preserves-pure P tt))

  supersede_if_active-Preserves :
      (attempt_id : Text) → Preserves P (supersede_if_active crypto attempt_id)
  unfolding supersede_if_active
  supersede_if_active-Preserves attempt_id =
      Preserves->>= P _ _ (Preserves-gets P (λ db. find (λ a. a.id === attempt_id) db.attempts))
        (λ row. supersede_found-Preserves row)

  link_created-Preserves :
      (settlement : SettlementRow) (last link_id receipt : Text) (reply : Reply RazorpayPaymentLink)
      → Preserves P (link_created crypto settlement last link_id receipt reply)
  unfolding link_created issue_link
  link_created-Preserves settlement last link_id receipt (Reply.failed message) =
      Preserves->>= P _ _ (Preserves-tx P _ (log_event-Preserves _ _ _ _)) (λ _. Preserves-pure P _)
  link_created-Preserves settlement last link_id receipt (Reply.replied link) =
      Preserves->>= P _ _
        (Preserves-tx P _ (
          Preserves->>= P _ _ (supersede_if_active-Preserves last)
            (λ _. Preserves->>= P _ _ (laws.insert_attempt _) (λ _. log_event-Preserves _ _ _ _))))
        (λ _. Preserves-pure P _)

  after_reverify-Preserves :
      (fresh : Text) (outcome : ReverifyOutcome) → Preserves P (after_reverify crypto fresh outcome)
  after_reverify-Preserves fresh (entered settlement) = run_attempt_loop-Preserves settlement fresh
  after_reverify-Preserves fresh stale = Preserves-pure P _
  after_reverify-Preserves fresh (refused reason) = Preserves-pure P _

  -- The first step of a run preserves what satisfies the laws.
  pub run_once-Preserves :
      (settlement_id : Text) (now : ℕ) (fresh : Text)
      → Preserves P (run_once crypto settlement_id now fresh)
  unfolding run_once
  run_once-Preserves settlement_id now fresh =
      Preserves->>= P _ _ (laws.enter_settling settlement_id now)
        (λ outcome. after_reverify-Preserves fresh outcome)

  resume_found-Preserves :
      (fresh : Text) (found : Option SettlementRow) → Preserves P (resume_found crypto fresh found)
  resume_found-Preserves fresh none = Preserves-pure P _
  resume_found-Preserves fresh (some settlement) = Preserves-if P _ _ _ (Preserves-pure P _) (
      Preserves->>= P _ _
        (Preserves-gets P
          (λ db. any (λ a. (a.settlement_id === settlement.id) && is_active a.state) db.attempts))
        (λ active.
          Preserves-if P active _ _ (Preserves-pure P _)
            (run_attempt_loop-Preserves settlement fresh)))

  -- The first step of a resumed run does, too.
  pub resume_settling_run-Preserves :
      (settlement_id fresh : Text) → Preserves P (resume_settling_run crypto settlement_id fresh)
  unfolding resume_settling_run
  resume_settling_run-Preserves settlement_id fresh =
      Preserves->>= P _ _
        (Preserves-gets P (λ db. find (λ s. s.id === settlement_id) db.settlements))
        (λ found. resume_found-Preserves fresh found)

  -- And every later step.
  pub step-Preserves : (run : Run) (wake : Wake) → Preserves P (step crypto run wake)
  unfolding step
  step-Preserves (creating_order settlement attempt_num attempt_id) wake =
      order_created-Preserves settlement attempt_num attempt_id wake.order wake.fresh
  step-Preserves (driving settlement attempt_num attempt_id order) wake =
      driven-Preserves settlement attempt_num attempt_id order wake.checkout wake.fresh
  step-Preserves (creating_link settlement last link_id receipt) wake =
      Preserves->>= P _ _ (link_created-Preserves settlement last link_id receipt wake.link)
        (λ outcome. Preserves-pure P _)
  step-Preserves (finished outcome) wake = Preserves-pure P _
