-- ===== src/Facilitator/App/Verifies.antt =====
-- The ledger verifies after every request.
use hundi.Facilitator.Ledger.Chain.{append_ledger_err, append_ledger-intact, append_ledger_lem}
use hundi.Facilitator.Preserves.Entering.{reverify_and_enter_settling-Preserves}
use hundi.Facilitator.Executor.Reverify.{reverify_and_enter_settling}
use hundi.Facilitator.Sweep.Rules.{bump_kicks}
use hundi.Facilitator.Executor.Attempts.{insert_attempt}
use hundi.Facilitator.StateMachine.{transition_attempt, transition_settlement}
use hundi.Core.CanonicalJson.{canonical_json}
use hundi.Common.{ℕ, ◌≡◌, refl, sym, inl, inr, Text, List, ok, Result, Option, Result-cases, arith}
use mathlib.Core.Path.{subst}
use hundi.Core.Crypto.{Crypto}
use hundi.Facilitator.Db.{AttemptRow, Db, SettlementState, AttemptState}
use hundi.Facilitator.Action.{◌>>=◌, Action}
use hundi.Facilitator.Ledger.{
  current_head, hashed_fields, intact, verify_ledger, AppendLedgerInput, append_ledger,
}
use hundi.Facilitator.App.{Request, serve_all}
use hundi.Facilitator.Preserves.{Laws, Preserves}
use hundi.Facilitator.Preserves.Requests.{serve_all-Preserves}

module _ (crypto : Crypto) where
  -- The ledger verifies.
  unfoldable pub IsIntact : Db → Type 0
  IsIntact db = (head : Text) × (n : ℕ) × (verify_ledger crypto db ≡ ok (intact head n))

  same_ledger-IsIntact : (db db' : Db) → db'.ledger ≡ db.ledger → IsIntact db → IsIntact db'
  unfolding IsIntact verify_ledger
  same_ledger-IsIntact db db' same (head, n, e) = (head, n, rw same e)

  elsewhere :
      {A : Type 0} (m : Action A) → ((db : Db) → (m db).1.ledger ≡ db.ledger) → Preserves IsIntact m
  unfolding Preserves
  elsewhere m h db i = same_ledger-IsIntact db (m db).1 (h db) i

  append_ledger-IsIntact :
      (input : AppendLedgerInput) → Preserves IsIntact (append_ledger crypto input)
  unfolding Preserves IsIntact
  append_ledger-IsIntact input db (head, n, v) =
      elim (Result-cases (
        canonical_json (
          hashed_fields input.event_type input.settlement_id input.actor input.payload
            (current_head db)))) [
              | inl (bytes, q) ↦
                  let e = append_ledger_lem crypto input db bytes q in
                  subst (λ (r : Result (ℕ × Text) × Db). IsIntact r.1) (sym e)
                    (_, _, append_ledger-intact crypto input db _ v e)
              | inr (x, q) ↦
                  subst (λ (r : Result (ℕ × Text) × Db). IsIntact r.1)
                    (sym (append_ledger_err crypto input db x q)) (head, n, v)
            ]

  transition_settlement-IsIntact :
      (id : Text) (from to : SettlementState) (reason : Option Text)
      → Preserves IsIntact (transition_settlement id from to reason)
  unfolding transition_settlement
  transition_settlement-IsIntact id from to reason = elsewhere _ (λ db. ground arith)

  transition_attempt-IsIntact :
      (id : Text) (from to : AttemptState) → Preserves IsIntact (transition_attempt id from to)
  unfolding transition_attempt
  transition_attempt-IsIntact id from to = elsewhere _ (λ db. ground arith)

  insert_attempt-IsIntact : (row : ℕ → AttemptRow) → Preserves IsIntact (insert_attempt row)
  unfolding insert_attempt
  insert_attempt-IsIntact row = elsewhere _ (λ db. ground arith)

  bump_kicks-IsIntact : (id : Text) → Preserves IsIntact (bump_kicks id)
  unfolding bump_kicks ◌>>=◌
  bump_kicks-IsIntact id = elsewhere _ (λ db. refl)

  reverify_and_enter_settling-IsIntact :
      (id : Text) (now : ℕ) → Preserves IsIntact (reverify_and_enter_settling crypto id now)
  reverify_and_enter_settling-IsIntact =
      reverify_and_enter_settling-Preserves crypto IsIntact append_ledger-IsIntact
        (λ id from to reason. transition_settlement-IsIntact id from to reason)

  IsIntact-Laws : Laws crypto IsIntact
  IsIntact-Laws = record {
    other = λ db db' u i. same_ledger-IsIntact db db' u.3 i;
    append = append_ledger-IsIntact;
    insert_attempt = insert_attempt-IsIntact;
    move_attempt = transition_attempt-IsIntact;
    set_payment = λ id payment. elsewhere _ (λ db. refl);
    set_order = λ id order. elsewhere _ (λ db. refl);
    insert_settlement = λ id intent cart hash db fine i. same_ledger-IsIntact db _ refl i;
    move_settlement = λ id from to reason ne. transition_settlement-IsIntact id from to reason;
    enter_settling = reverify_and_enter_settling-IsIntact;
    bump_kicks = bump_kicks-IsIntact;
    insert_mandate = λ intent hash credential db fine i. same_ledger-IsIntact db _ refl i;
    revoke_mandate = λ id db i. same_ledger-IsIntact db _ refl i;
  }

  -- If verifyLedger accepts the ledger, it accepts the ledger after any sequence of requests,
  -- executor's steps, sweeps, reconciliations and captures, whether they are answered or refused.
  pub serve_all-verifies :
      (requests : List Request) (db : Db) {head : Text} {n : ℕ}
      → verify_ledger crypto db ≡ ok (intact head n)
      → (head' : Text) × (n' : ℕ) × (verify_ledger crypto (serve_all crypto requests db)
          ≡ ok (intact head' n'))
  unfolding IsIntact
  serve_all-verifies requests db v =
      serve_all-Preserves crypto IsIntact IsIntact-Laws requests db (_, _, v)
