-- ===== src/Facilitator/Executor/Budget/Bound.antt =====
-- Every step of a run of packages/facilitator/src/executor.ts stays within the budget.
use hundi.Facilitator.Executor.Steps.{
  Wake, step, steps, run_once, resume_settling_run, resume_found, after_reverify,
}
use hundi.Facilitator.Executor.Reverify.{ReverifyOutcome, entered, stale, refused}
use hundi.Facilitator.Executor.Attempts.{
  driver_attempts, is_driver_attempt, insert_attempt, attempt_insert_violation, supersede_found,
  supersede_if_active, issue_link, link_created,
}
use hundi.Common.{
  ℕ, ◌≡◌, refl, ap, arith, inl, inr, Option-cases, Option, none, some, List, [], ◌∷◌, Text, Result,
  ok, err, false,
}
use hundi.Core.Crypto.{Crypto}
use hundi.Facilitator.Action.{◌>>=◌}
use hundi.Facilitator.Reconcile.{Reply}
use hundi.Facilitator.App.Charges.{transition_settlement-attempts}
use hundi.Facilitator.Preserves.{
  Preserves, Preserves->>=, Preserves-tx, Preserves-moves, Preserves-pure, Preserves-gets,
  Preserves-if,
}
use hundi.Facilitator.Preserves.Entering.{reverify_and_enter_settling-Preserves}
use hundi.Facilitator.Executor.{
  RazorpayPaymentLink, Run, creating_order, driving, creating_link, finished,
}
use hundi.Facilitator.Executor.Budget.{
  Leads-gets, Leads-if, IsWithinBudget, Used, Counts, After, Leads, Leads->>=, Leads-Preserves,
  Leads-pure, Leads-weaken, driver_attempts-append,
}
use hundi.Facilitator.Db.{SettlementRow, AttemptRow, Db}
use hundi.Facilitator.Executor.Budget.Runs.{
  kept, transition_attempt-Used, append_ledger-Used, log_event-Used, run_attempt_loop-Counts,
  order_created-Counts, driven-Counts,
}

insert_link-Used :
    (sid : Text) (n : ℕ) (row : ℕ → AttemptRow)
    → ((id : Text) (clock : ℕ) → is_driver_attempt id (row clock) ≡ false)
    → Preserves (Used sid n) (insert_attempt row)
unfolding insert_attempt
insert_link-Used sid n row other = kept sid n _ (λ id db.
    elim (Option-cases (attempt_insert_violation (row db.clock) db)) [
      | inr (constraint, bad) ↦ rw bad refl
      | inl fine ↦
          rw fine (
            ground (arith, driver_attempts-append id db.attempts (row db.clock), other id db.clock))
    ])

module _ (crypto : Crypto) where
  supersede_found-Used :
      (sid : Text) (n : ℕ) (row : Option AttemptRow)
      → Preserves (Used sid n) (supersede_found crypto row)
  supersede_found-Used sid n none = Preserves-pure _ tt
  supersede_found-Used sid n (some row) = Preserves-if _ _ _ _ (Preserves-pure _ tt) (
      Preserves->>= _ _ _ (Preserves-moves _ _ (transition_attempt-Used sid n _ _ _))
        (λ _. Preserves-pure _ tt))

  issue_link-Used :
      (sid : Text) (n : ℕ) (id last link_id receipt : Text) (link : RazorpayPaymentLink)
      → Preserves (Used sid n) (issue_link crypto id last link_id receipt link)
  unfolding issue_link supersede_if_active
  issue_link-Used sid n id last link_id receipt link =
      Preserves->>= _ _ _
        (Preserves->>= _ _ _ (Preserves-gets _ _) (λ row. supersede_found-Used sid n row))
        (λ _.
          Preserves->>= _ _ _ (insert_link-Used sid n _ (λ of_ clock. ground arith))
            (λ _. log_event-Used crypto sid n _ _ _ _))

  link_created-Used :
      (settlement : SettlementRow) (n : ℕ) (last link_id receipt : Text)
      (reply : Reply RazorpayPaymentLink)
      → Preserves (Used settlement.id n) (link_created crypto settlement last link_id receipt reply)
  unfolding link_created
  link_created-Used settlement n last link_id receipt (Reply.failed message) =
      Preserves->>= _ _ _ (Preserves-tx _ _ (log_event-Used crypto settlement.id n _ _ _ _))
        (λ _. Preserves-pure _ _)
  link_created-Used settlement n last link_id receipt (Reply.replied link) =
      Preserves->>= _ _ _ (Preserves-tx _ _ (issue_link-Used settlement.id n _ _ _ _ link))
        (λ _. Preserves-pure _ _)

  step-Counts : (run : Run) (wake : Wake) → Leads (Counts run) (step crypto run wake) Counts
  unfolding step
  step-Counts (creating_order settlement n attempt_id) wake =
      order_created-Counts crypto settlement n attempt_id wake.order wake.fresh
  step-Counts (driving settlement n attempt_id order) wake =
      driven-Counts crypto settlement n attempt_id order wake.checkout wake.fresh
  step-Counts (creating_link settlement last link_id receipt) wake =
      Leads->>= _ (λ _. Used settlement.id 3) _ _ _
        (Leads-weaken _ _ _ _ (λ db w. (w, w settlement.id))
          (Leads-Preserves _ _ _ (link_created-Used settlement 3 last link_id receipt wake.link)))
        (λ outcome. Leads-pure _ _ (finished outcome) (λ db u. u.0))
  step-Counts (finished outcome) wake = Leads-pure _ _ (finished outcome) (λ db w. w)

  steps-Counts :
      (wakes : List Wake) (run : Run) → Leads (Counts run) (steps crypto run wakes) Counts
  unfolding steps
  steps-Counts [] run = Leads-pure _ _ run (λ db h. h)
  steps-Counts (wake ∷ wakes) run =
      Leads->>= _ _ _ _ _ (step-Counts run wake) (λ run'. steps-Counts wakes run')

  after_reverify-Counts :
      (fresh : Text) (outcome : ReverifyOutcome)
      → Leads IsWithinBudget (after_reverify crypto fresh outcome) Counts
  after_reverify-Counts fresh (entered settlement) = run_attempt_loop-Counts crypto settlement fresh
  after_reverify-Counts fresh stale = Leads-pure _ _ (finished _) (λ db w. w)
  after_reverify-Counts fresh (refused reason) = Leads-pure _ _ (finished _) (λ db w. w)

  run_once-Counts :
      (settlement_id : Text) (now : ℕ) (fresh : Text)
      → Leads IsWithinBudget (run_once crypto settlement_id now fresh) Counts
  unfolding run_once
  run_once-Counts settlement_id now fresh =
      Leads->>= _ (λ _. Used settlement_id 3) _ _ _
        (Leads-weaken _ _ _ _ (λ db w. (w, w settlement_id))
          (Leads-Preserves _ _ _ (
            reverify_and_enter_settling-Preserves crypto _
              (append_ledger-Used settlement_id 3 crypto)
              (λ id from to reason. kept settlement_id 3 _ (λ of_ db.
                ap (driver_attempts of_) (transition_settlement-attempts id from to reason db)))
              settlement_id now)))
        (λ outcome. Leads-weaken _ _ _ _ (λ db u. u.0) (after_reverify-Counts fresh outcome))

  resume_found-Counts :
      (fresh : Text) (found : Option SettlementRow)
      → Leads IsWithinBudget (resume_found crypto fresh found) Counts
  resume_found-Counts fresh none = Leads-pure _ _ (finished _) (λ db w. w)
  resume_found-Counts fresh (some settlement) =
      Leads-if _ _ _ _ _ (Leads-pure _ _ (finished _) (λ db w. w)) (
        Leads->>= _ (λ _. IsWithinBudget) _ _ _ (Leads-gets _ _)
          (λ active.
            Leads-if _ _ active _ _ (Leads-pure _ _ (finished _) (λ db w. w))
              (run_attempt_loop-Counts crypto settlement fresh)))

  resume_settling_run-Counts :
      (settlement_id fresh : Text)
      → Leads IsWithinBudget (resume_settling_run crypto settlement_id fresh) Counts
  unfolding resume_settling_run
  resume_settling_run-Counts settlement_id fresh =
      Leads->>= _ (λ _. IsWithinBudget) _ _ _ (Leads-gets _ _)
        (λ found. resume_found-Counts fresh found)

  Counts-IsWithinBudget : (r : Result Run × Db) → After Counts r → IsWithinBudget r.1
  Counts-IsWithinBudget (ok (creating_order s n a), db) h = h.0
  Counts-IsWithinBudget (ok (driving s n a o), db) h = h.0
  Counts-IsWithinBudget (ok (creating_link s a l r), db) h = h
  Counts-IsWithinBudget (ok (finished o), db) h = h
  Counts-IsWithinBudget (err e, db) h = h

  -- If no settlement has more than three attempts by the checkout driver, none has after a run of the
  -- executor, fresh or resumed, and any number of its steps, whatever the provider and the driver
  -- answer.
  pub run_once-IsWithinBudget :
      (settlement_id : Text) (now : ℕ) (fresh : Text) (wakes : List Wake) (db : Db)
      → IsWithinBudget db
      → IsWithinBudget
          ((run_once crypto settlement_id now fresh >>= λ run. steps crypto run wakes) db).1
        × IsWithinBudget
            ((resume_settling_run crypto settlement_id fresh >>= λ run. steps crypto run wakes)
              db).1
  unfolding Leads
  run_once-IsWithinBudget settlement_id now fresh wakes db w = (
    Counts-IsWithinBudget _ (
        Leads->>= _ _ Counts (run_once crypto settlement_id now fresh) _
          (run_once-Counts settlement_id now fresh) (λ run. steps-Counts wakes run) db w),
    Counts-IsWithinBudget _ (
        Leads->>= _ _ Counts (resume_settling_run crypto settlement_id fresh) _
          (resume_settling_run-Counts settlement_id fresh) (λ run. steps-Counts wakes run) db w),
  )
