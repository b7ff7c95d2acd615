-- ===== src/Tests/Execution.antt =====
-- Runs of the executor, and the theorems about any run at those.
use hundi.Facilitator.Executor.Budget.Bound.{run_once-IsWithinBudget}
use hundi.Facilitator.Executor.Budget.{IsWithinBudget}
use hundi.Tests.App.{application, requests}
use hundi.Tests.Fixtures.{toy_crypto, db}
use hundi.Common.{
  if◌then◌else◌, Text-discrete, ℕ, ◌≤◌, ◌≡◌, refl, arith, text, List, [], ◌∷◌, ◌++◌, take, ok,
  digits, length,
}
use hundi.Facilitator.Db.{Db}
use hundi.Facilitator.Action.{◌>>=◌}
use hundi.Facilitator.Reconcile.{Reply}
use hundi.Facilitator.App.{serve_all}
use hundi.Facilitator.App.Charges.{serve_all-charges_once}
use hundi.Facilitator.Charges.{IsChargedOnceDb, active_attempts, captured_attempts}
use hundi.Facilitator.Yields.{Satisfies}
use hundi.Facilitator.Distinct.{HasDistinct}
use hundi.Facilitator.Executor.{finished, stalled}
use hundi.Facilitator.Executor.Attempts.{order_created, fail_uncreated, link_created}
use hundi.Facilitator.Executor.Steps.{Wake, run_once, resume_settling_run, step, steps}
use hundi.Facilitator.Executor.Ends.{IsFinished, run_once-ends}
use hundi.Facilitator.Executor.Queue.{execute, resume_settling, id_of, idle, kick, settled, delete}
use hundi.Facilitator.Executor.Queue.Once.{
  Event, kicked, head_settled, after_events, settle_times, is_queued, kick-once,
}

-- The settlement is approved, and nothing runs.
abbrev approved_db : Db
approved_db = serve_all toy_crypto (take 3 requests) db

-- The provider is down.
abbrev down : ℕ → Wake
down n = record {
  order = Reply.failed [];
  checkout = Reply.failed [];
  link = Reply.failed [];
  fresh = b'a' ∷ digits n;
}

abbrev outage : List Wake
outage = down 2 ∷ down 3 ∷ down 4 ∷ down 5 ∷ down 6 ∷ down 7 ∷ down 8 ∷ []

-- Three attempts fail, and so does the payment link.
gives_up :
    ((run_once toy_crypto (text "s1") 101 (text "a1") >>= λ run. steps toy_crypto run outage)
      approved_db).0
    ≡ ok (finished stalled)
unfolding application steps step order_created fail_uncreated link_created
gives_up = refl

run_once-ends_example :
    Satisfies IsFinished
      ((run_once toy_crypto (text "s1") 101 (text "a1") >>= λ run. steps toy_crypto run outage)
        approved_db).0
    × Satisfies IsFinished
        ((resume_settling_run toy_crypto (text "s1") (text "a1") >>= λ run.
            steps toy_crypto run outage)
          approved_db).0
run_once-ends_example =
    run_once-ends toy_crypto (text "s1") 101 (text "a1") outage approved_db (omega arith)

approved_db-IsWithinBudget : IsWithinBudget approved_db
unfolding application
approved_db-IsWithinBudget id = omega arith

run_once-IsWithinBudget_example :
    IsWithinBudget
      ((run_once toy_crypto (text "s1") 101 (text "a1") >>= λ run. steps toy_crypto run outage)
        approved_db).1
    × IsWithinBudget
        ((resume_settling_run toy_crypto (text "s1") (text "a1") >>= λ run.
            steps toy_crypto run outage)
          approved_db).1
run_once-IsWithinBudget_example =
    run_once-IsWithinBudget toy_crypto (text "s1") 101 (text "a1") outage approved_db
      approved_db-IsWithinBudget

db-IsChargedOnceDb : IsChargedOnceDb db
unfolding IsChargedOnceDb
db-IsChargedOnceDb = record {
  distinct = tt;
  active = λ id. omega arith;
  captured = λ id. omega arith;
}

serve_all-charges_once_example :
    IsChargedOnceDb (serve_all toy_crypto requests db)
    × (captured_attempts (text "s1") (serve_all toy_crypto requests db) ≤ 1)
    × (active_attempts (text "s1") (serve_all toy_crypto requests db) ≤ 1)
serve_all-charges_once_example =
    serve_all-charges_once toy_crypto requests db (text "s1") db-IsChargedOnceDb

charged : captured_attempts (text "s1") (serve_all toy_crypto requests db) ≡ 1
unfolding application
charged = refl

abbrev events : List Event
events =
    kicked (execute (text "s1"))
    ∷ kicked (execute (text "s2"))
    ∷ kicked (resume_settling (text "s1"))
    ∷ head_settled
    ∷ kicked (execute (text "s3"))
    ∷ []

waiting : (after_events events idle).chain ≡ execute (text "s2") ∷ execute (text "s3") ∷ []
unfolding after_events kick settled delete Text-discrete
waiting = refl

kick-once_example :
    HasDistinct id_of (after_events events idle).chain
    × (kick (resume_settling (text "s2")) (after_events events idle) ≡ (
        if is_queued (text "s2") (after_events events idle).chain
        then after_events events idle
        else record {
          in_flight = text "s2" ∷ (after_events events idle).in_flight;
          chain = (after_events events idle).chain ++ resume_settling (text "s2") ∷ [];
        }))
    × (settle_times (length (after_events events idle).chain) (after_events events idle) ≡ idle)
kick-once_example = kick-once events (resume_settling (text "s2"))
