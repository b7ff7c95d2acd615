-- ===== src/Facilitator/Executor/Ends.antt =====
-- A run of packages/facilitator/src/executor.ts ends: how many more answers it can wait for.
use hundi.Facilitator.Executor.Steps.{
  Wake, after_reverify, resume_found, resume_settling_run, run_once, step, steps,
}
use hundi.Facilitator.Executor.Attempts.{
  captured_payment, capture_driven, driven, end_attempt, next_attempt, order_created,
  run_attempt_loop,
}
use hundi.Facilitator.Executor.Reverify.{ReverifyOutcome, entered, stale, refused}
use hundi.Common.{
  ℕ, ◌+◌, ◌-◌, ◌*◌, ◌≤◌, arith, List, [], ◌∷◌, length, Text, leb, Option, none, some, Bool-cases,
  inl, inr, ◌≡◌,
}
use hundi.Core.Crypto.{Crypto}
use hundi.Facilitator.Db.{SettlementRow, Db}
use hundi.Facilitator.Action.{◌>>=◌}
use hundi.Facilitator.Reconcile.{Reply}
use hundi.Facilitator.Executor.{
  ExecutionOutcome, SettleViaCheckoutResult, max_attempts, Run, creating_order, driving,
  creating_link, finished,
}
use hundi.Facilitator.Yields.{
  Satisfies, Yields, Yields-pure, Yields-err, Yields-if, Yields-chain, Yields->>=, Yields-weaken,
}

-- The answers that a run can still wait for.
abbrev pub rank : Run → ℕ
rank (creating_order settlement n attempt_id) = 2 * (3 - n) + 3
rank (driving settlement n attempt_id order) = 2 * (3 - n) + 2
rank (creating_link settlement last_attempt_id link_attempt_id receipt) = 1
rank (finished outcome) = 0

abbrev pub IsFinished : Run → Type 0
IsFinished run = rank run ≡ 0

module _ (crypto : Crypto) where
  next_attempt-rank :
      (settlement : SettlementRow) (n : ℕ) (last fresh : Text)
      → Yields (λ run. rank run ≤ 2 * (4 - n) + 1) (next_attempt crypto settlement n last fresh)
  unfolding next_attempt
  next_attempt-rank settlement n last fresh = elim (Bool-cases (leb n max_attempts)) [
    | inl few ↦
        rw few
          (Yields->>= _ _ _ (λ _. Yields-pure _ (creating_order settlement n fresh) (ground arith)))
    | inr many ↦ rw many (Yields-pure _ (creating_link settlement last fresh _) (ground arith))
  ]

  run_attempt_loop-rank :
      (settlement : SettlementRow) (fresh : Text)
      → Yields (λ run. rank run ≤ 7) (run_attempt_loop crypto settlement fresh)
  unfolding run_attempt_loop
  run_attempt_loop-rank settlement fresh = Yields->>= _ _ _ (λ n.
      Yields-weaken _ _ _ (λ run h. omega (arith, h))
        (next_attempt-rank settlement (n + 1) [] fresh))

  order_created-rank :
      (settlement : SettlementRow) (n : ℕ) (attempt_id : Text) (reply : Reply Text) (fresh : Text)
      → Yields
          (λ run. rank run ≤ 2 * (3 - n) + 2)
          (order_created crypto settlement n attempt_id reply fresh)
  unfolding order_created
  order_created-rank settlement n attempt_id (Reply.failed message) fresh = Yields->>= _ _ _ (λ _.
      Yields-weaken _ _ _ (λ run h. omega (arith, h))
        (next_attempt-rank settlement (n + 1) attempt_id fresh))
  order_created-rank settlement n attempt_id (Reply.replied order) fresh =
      Yields->>= _ _ _ (λ _. Yields-pure _ (driving settlement n attempt_id order) (omega arith))

  end_attempt-rank :
      (settlement : SettlementRow) (n : ℕ) (attempt_id order : Text)
      (result : SettleViaCheckoutResult) (fresh : Text)
      → Yields
          (λ run. rank run ≤ 2 * (3 - n) + 1)
          (end_attempt crypto settlement n attempt_id order result fresh)
  unfolding end_attempt
  end_attempt-rank settlement n attempt_id order result fresh = Yields->>= _ _ _ (λ _.
      Yields-weaken _ _ _ (λ run h. omega (arith, h))
        (next_attempt-rank settlement (n + 1) attempt_id fresh))

  capture_driven-rank :
      (settlement : SettlementRow) (n : ℕ) (attempt_id order : Text)
      (result : SettleViaCheckoutResult) (fresh : Text) (payment : Option Text)
      → Yields
          (λ run. rank run ≤ 2 * (3 - n) + 1)
          (capture_driven crypto settlement n attempt_id order result fresh payment)
  unfolding capture_driven
  capture_driven-rank settlement n attempt_id order result fresh none =
      end_attempt-rank settlement n attempt_id order result fresh
  capture_driven-rank settlement n attempt_id order result fresh (some payment_id) =
      Yields->>= _ _ _ (λ captured.
        Yields-if _ captured _ _
          (Yields-pure _ (finished (ExecutionOutcome.captured attempt_id payment_id)) (omega arith))
          (end_attempt-rank settlement n attempt_id order result fresh))

  driven-rank :
      (settlement : SettlementRow) (n : ℕ) (attempt_id order : Text)
      (reply : Reply SettleViaCheckoutResult) (fresh : Text)
      → Yields
          (λ run. rank run ≤ 2 * (3 - n) + 1)
          (driven crypto settlement n attempt_id order reply fresh)
  unfolding driven
  driven-rank settlement n attempt_id order (Reply.failed message) fresh = Yields-err _ _ (λ db. tt)
  driven-rank settlement n attempt_id order (Reply.replied result) fresh =
      capture_driven-rank settlement n attempt_id order result fresh (captured_payment result)

  -- An answer leaves fewer to wait for.
  step-rank :
      (run : Run) (wake : Wake) → Yields (λ run'. rank run' ≤ rank run - 1) (step crypto run wake)
  unfolding step
  step-rank (creating_order settlement n attempt_id) wake =
      Yields-weaken _ _ _ (λ run h. omega (arith, h))
        (order_created-rank settlement n attempt_id wake.order wake.fresh)
  step-rank (driving settlement n attempt_id order) wake =
      Yields-weaken _ _ _ (λ run h. omega (arith, h))
        (driven-rank settlement n attempt_id order wake.checkout wake.fresh)
  step-rank (creating_link settlement last link_id receipt) wake =
      Yields->>= _ _ _ (λ outcome. Yields-pure _ (finished outcome) (omega arith))
  step-rank (finished outcome) wake = Yields-pure _ (finished outcome) (omega arith)

  steps-ends :
      (wakes : List Wake) (run : Run)
      → rank run ≤ length wakes
      → Yields IsFinished (steps crypto run wakes)
  unfolding steps
  steps-ends [] run h = Yields-pure _ run (omega (arith, h))
  steps-ends (wake ∷ wakes) run h =
      Yields-chain _ _ _ _ (step-rank run wake)
        (λ run' k. steps-ends wakes run' (omega (arith, h, k)))

  after_reverify-rank :
      (fresh : Text) (outcome : ReverifyOutcome)
      → Yields (λ run. rank run ≤ 7) (after_reverify crypto fresh outcome)
  after_reverify-rank fresh (entered settlement) = run_attempt_loop-rank settlement fresh
  after_reverify-rank fresh stale = Yields-pure _ _ (omega arith)
  after_reverify-rank fresh (refused reason) = Yields-pure _ _ (omega arith)

  run_once-rank :
      (settlement_id : Text) (now : ℕ) (fresh : Text)
      → Yields (λ run. rank run ≤ 7) (run_once crypto settlement_id now fresh)
  unfolding run_once
  run_once-rank settlement_id now fresh =
      Yields->>= _ _ _ (λ outcome. after_reverify-rank fresh outcome)

  resume_found-rank :
      (fresh : Text) (found : Option SettlementRow)
      → Yields (λ run. rank run ≤ 7) (resume_found crypto fresh found)
  resume_found-rank fresh none = Yields-pure _ _ (omega arith)
  resume_found-rank fresh (some settlement) = Yields-if _ _ _ _ (Yields-pure _ _ (omega arith)) (
      Yields->>= _ _ _ (λ active.
        Yields-if _ active _ _ (Yields-pure _ _ (omega arith))
          (run_attempt_loop-rank settlement fresh)))

  resume_settling_run-rank :
      (settlement_id fresh : Text)
      → Yields (λ run. rank run ≤ 7) (resume_settling_run crypto settlement_id fresh)
  unfolding resume_settling_run
  resume_settling_run-rank settlement_id fresh =
      Yields->>= _ _ _ (λ found. resume_found-rank fresh found)

  -- A run of the executor, fresh or resumed, ends: whatever the database, it has finished or thrown
  -- after any seven answers of the provider and of the checkout driver.
  pub run_once-ends :
      (settlement_id : Text) (now : ℕ) (fresh : Text) (wakes : List Wake) (db : Db)
      → 7 ≤ length wakes
      → Satisfies IsFinished
          ((run_once crypto settlement_id now fresh >>= λ run. steps crypto run wakes) db).0
        × Satisfies IsFinished
            ((resume_settling_run crypto settlement_id fresh >>= λ run. steps crypto run wakes)
              db).0
  unfolding Yields
  run_once-ends settlement_id now fresh wakes db h = (
    Yields-chain _ _ _ _ (run_once-rank settlement_id now fresh)
        (λ run k. steps-ends wakes run (omega (arith, h, k))) db,
    Yields-chain _ _ _ _ (resume_settling_run-rank settlement_id fresh)
        (λ run k. steps-ends wakes run (omega (arith, h, k))) db,
  )
