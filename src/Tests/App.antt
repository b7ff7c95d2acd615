-- ===== src/Tests/App.antt =====
-- A run of the service, and the theorems about any run at that one.
use hundi.Facilitator.Routes.Mandates.{post_ceremony_tokens}
use hundi.Facilitator.Action.{each}
use hundi.Facilitator.Sweep.Rules.{
  sweep_stale_idempotency_locks, sweep_stuck_settling, sweep_stale_approved,
  sweep_expired_approvals, sweep_stale_verified, sweep_transient_settlements, sweep_stale_attempts,
  run_sweep,
}
use hundi.Facilitator.Sweep.{default_sweep_ttls}
use hundi.Facilitator.Db.{AttemptState}
use hundi.Facilitator.Executor.Attempts.{
  driver_attempts, attempt_insert_violation, insert_attempt, initiate_attempt, next_attempt,
  run_attempt_loop,
}
use mathlib.Core.Path.{subst}
use hundi.Facilitator.Table.{total}
use hundi.Facilitator.Listed.{Listed}
use hundi.Facilitator.Executor.Reverify.{
  enter_settling, reverify_known, reverify_found, reverify_and_enter_settling,
}
use hundi.Facilitator.StateMachine.Exclusive.{IsExclusive}
use hundi.Facilitator.Executor.Steps.{run_once}
use hundi.Facilitator.Wallet.{committed, IsSolventDb}
use hundi.Facilitator.MandateRepo.{get_mandate_row, get_captured_spend}
use hundi.Tests.Wallet.{routes}
use hundi.Common.{
  Text-discrete, digits, arith, ℕ, ◌≡◌, ◌≤◌, refl, Text, text, List, [], ◌∷◌, some, none, ok, inl,
  inr,
}
use hundi.Tests.Fixtures.{toy_crypto, body, db, mandate_row}
use hundi.Tests.Settlements.{ledger_empty}
use hundi.Core.Value.{get, text_of, nat_of}
use hundi.Core.Mandate.{IntentMandate}
use hundi.Facilitator.Ledger.{intact, verify_ledger}
use hundi.Facilitator.Reconcile.{Reply}
use hundi.Facilitator.App.{
  Request, at, ceremony_token, settlement, execution, capture, sweep, serve, serve_all,
}
use hundi.Facilitator.App.Verifies.{serve_all-verifies}
use hundi.Facilitator.App.Solvent.{serve_all-solvent}

abbrev pub requests : List Request
requests =
    ceremony_token (text "t2")
    ∷ settlement (some (text "k1")) body (text "s1") 100
    ∷ at 101
    ∷ execution (text "s1") 101 (text "a1")
    ∷ capture
        (record {
          attempt_id = text "a1";
          attempt_state = AttemptState.initiated;
          settlement_id = text "s1";
          provider_order_id = none;
        })
        (text "p1")
    ∷ sweep default_sweep_ttls 102 (λ id. Reply.failed []) (λ id. Reply.failed [])
    ∷ []

-- The whole service as it runs.
unfoldable pub application : Unit {0}
unfolding routes serve serve_all run_once reverify_and_enter_settling reverify_found reverify_known
    enter_settling run_attempt_loop next_attempt initiate_attempt insert_attempt
    attempt_insert_violation driver_attempts digits run_sweep sweep_stale_attempts
    sweep_transient_settlements sweep_stale_verified sweep_expired_approvals sweep_stale_approved
    sweep_stuck_settling sweep_stale_idempotency_locks each get_captured_spend post_ceremony_tokens
    total
application = tt

spent : get_captured_spend (serve_all toy_crypto requests db) (text "m1") ≡ 400
unfolding application
spent = refl

still_registered : get_mandate_row (serve_all toy_crypto requests db) (text "m1") ≡ some mandate_row
unfolding application get_mandate_row
still_registered = refl

db-IsSolventDb : IsSolventDb db
unfolding IsSolventDb IsExclusive Listed committed total get Text-discrete
db-IsSolventDb = record {
  exclusive = λ r s lr ls. elim lr [ ];
  distinct = tt;
  amounts = λ s l. elim l [ ];
  owned = λ s l. elim l [ ];
  named = λ m l. elim l [
    | inl same ↦ subst (λ x. x.mandate_id ≡ text_of x.intent.mandate_id) same refl
    | inr l' ↦ elim l' [ ]
  ];
  within = λ id m found. omega arith;
}

serve_all-verifies_example :
    (head : Text) × (n : ℕ) × (verify_ledger toy_crypto (serve_all toy_crypto requests db)
      ≡ ok (intact head n))
serve_all-verifies_example = serve_all-verifies toy_crypto requests db ledger_empty

serve_all-solvent_example :
    IsSolventDb (serve_all toy_crypto requests db)
    × (get_captured_spend (serve_all toy_crypto requests db) (text "m1")
        ≤ committed (text "m1") (serve_all toy_crypto requests db).settlements)
    × (committed (text "m1") (serve_all toy_crypto requests db).settlements
        ≤ nat_of (IntentMandate.ceiling_paise mandate_row.intent))
serve_all-solvent_example =
    serve_all-solvent toy_crypto requests db (text "m1") mandate_row db-IsSolventDb still_registered
