-- ===== src/Facilitator/App/Charges.antt =====
-- No sequence of requests charges a settlement twice.
use hundi.Facilitator.Preserves.Entering.{reverify_and_enter_settling-Preserves}
use hundi.Facilitator.Sweep.Rules.{bump_kicks}
use hundi.Facilitator.Executor.Attempts.{insert_attempt, attempt_insert_violation}
use hundi.Facilitator.StateMachine.{
  transition_attempt, transition_settlement, attempt_violation, attempt_in_state, attempt_moved,
  can_move_attempt,
}
use hundi.Common.{
  Bool, ℕ, ◌≡◌, ◌≤◌, refl, sym, inl, inr, Text, List, Option, none, arith, false, any, ◌===◌, find,
  Option-cases, Bool-cases,
}
use mathlib.Core.Path.{subst}
use hundi.Core.Crypto.{Crypto}
use hundi.Facilitator.Db.{AttemptRow, Db, SettlementState, AttemptState}
use hundi.Facilitator.Action.{◌>>=◌, Action, modify}
use hundi.Facilitator.Table.{update}
use hundi.Facilitator.Ledger.{AppendLedgerInput, append_ledger}
use hundi.Facilitator.App.{Request, serve_all}
use hundi.Facilitator.Preserves.{Laws, Preserves}
use hundi.Facilitator.Preserves.Requests.{serve_all-Preserves}
use hundi.Facilitator.Charges.{IsChargedOnce, IsChargedOnceDb, active_attempts, captured_attempts}
use hundi.Facilitator.Charges.Moves.{append-IsChargedOnce, update-IsChargedOnce, kept-IsChargedOnce}

elsewhere :
    {A : Type 0} (m : Action A)
    → ((db : Db) → (m db).1.attempts ≡ db.attempts)
    → Preserves IsChargedOnceDb m
unfolding Preserves IsChargedOnceDb
elsewhere m h db i = subst IsChargedOnce (sym (h db)) i

insert_violation-none :
    (row : AttemptRow) (db : Db)
    → attempt_insert_violation row db ≡ none
    → (any (λ a. a.id === row.id) db.attempts ≡ false) × (attempt_violation row db.attempts ≡ none)
unfolding attempt_insert_violation
insert_violation-none row db e = (ground arith, ground arith)

insert_attempt-IsChargedOnce :
    (row : ℕ → AttemptRow) → Preserves IsChargedOnceDb (insert_attempt row)
unfolding Preserves IsChargedOnceDb insert_attempt
insert_attempt-IsChargedOnce row db i =
    elim (Option-cases (attempt_insert_violation (row db.clock) db)) [
      | inr (constraint, bad) ↦ rw bad i
      | inl fine ↦
          let (fresh, free) = insert_violation-none (row db.clock) db fine in
          rw fine (append-IsChargedOnce db.attempts (row db.clock) fresh free i)
    ]

transition_attempt-IsChargedOnce :
    (id : Text) (from to : AttemptState) → Preserves IsChargedOnceDb (transition_attempt id from to)
unfolding Preserves IsChargedOnceDb transition_attempt
transition_attempt-IsChargedOnce id from to db i = elim (Bool-cases (can_move_attempt from to)) [
  | inr illegal ↦ rw illegal i
  | inl legal ↦ elim (Option-cases (find (attempt_in_state id from) db.attempts)) [
    | inl missing ↦ rw (legal, missing) i
    | inr (row, found) ↦
        elim (Option-cases (attempt_violation (attempt_moved db.clock to row) db.attempts)) [
          | inr (constraint, bad) ↦ rw (legal, found, bad) i
          | inl fine ↦
              rw (legal, found, fine)
                (update-IsChargedOnce (attempt_in_state id from) (attempt_moved db.clock to)
                  db.attempts row (λ r. refl) found fine i)
        ]
  ]
]

pub transition_settlement-attempts :
    (id : Text) (from to : SettlementState) (reason : Option Text) (db : Db)
    → (transition_settlement id from to reason db).1.attempts ≡ db.attempts
unfolding transition_settlement
transition_settlement-attempts id from to reason db = ground arith

module _ (crypto : Crypto) where
  pub append_ledger-attempts :
      (input : AppendLedgerInput) (db : Db)
      → (append_ledger crypto input db).1.attempts ≡ db.attempts
  unfolding append_ledger ◌>>=◌
  append_ledger-attempts input db = ground arith

  bump_kicks-attempts : (id : Text) (db : Db) → (bump_kicks id db).1.attempts ≡ db.attempts
  unfolding bump_kicks ◌>>=◌
  bump_kicks-attempts id db = refl

  append_ledger-IsChargedOnce :
      (input : AppendLedgerInput) → Preserves IsChargedOnceDb (append_ledger crypto input)
  append_ledger-IsChargedOnce input = elsewhere _ (append_ledger-attempts input)

  transition_settlement-IsChargedOnce :
      (id : Text) (from to : SettlementState) (reason : Option Text)
      → Preserves IsChargedOnceDb (transition_settlement id from to reason)
  transition_settlement-IsChargedOnce id from to reason =
      elsewhere _ (transition_settlement-attempts id from to reason)

  -- An UPDATE of a column that the indexes do not read.
  columns :
      (p : AttemptRow → Bool) (f : ℕ → AttemptRow → AttemptRow)
      → ((clock : ℕ) (r : AttemptRow) → (f clock r).id ≡ r.id)
      → ((clock : ℕ) (r : AttemptRow) → (f clock r).settlement_id ≡ r.settlement_id)
      → ((clock : ℕ) (r : AttemptRow) → (f clock r).state ≡ r.state)
      → Preserves IsChargedOnceDb
          (modify (λ db. record db { attempts = update p (f db.clock) db.attempts }))
  unfolding Preserves IsChargedOnceDb
  columns p f ids owners states db i =
      kept-IsChargedOnce p (f db.clock) (ids db.clock) (owners db.clock) (states db.clock)
        db.attempts i

  IsChargedOnceDb-Laws : Laws crypto IsChargedOnceDb
  unfolding IsChargedOnceDb
  IsChargedOnceDb-Laws = record {
    other = λ db db' u i. subst IsChargedOnce (sym u.2) i;
    append = append_ledger-IsChargedOnce;
    insert_attempt = insert_attempt-IsChargedOnce;
    move_attempt = transition_attempt-IsChargedOnce;
    set_payment = λ id payment. columns _ _ (λ _ r. refl) (λ _ r. refl) (λ _ r. refl);
    set_order = λ id order. columns _ _ (λ _ r. refl) (λ _ r. refl) (λ _ r. refl);
    insert_settlement = λ id intent cart hash db fine i. i;
    move_settlement = λ id from to reason ne. transition_settlement-IsChargedOnce id from to reason;
    enter_settling =
        reverify_and_enter_settling-Preserves crypto IsChargedOnceDb append_ledger-IsChargedOnce
          transition_settlement-IsChargedOnce;
    bump_kicks = λ id. elsewhere _ (bump_kicks-attempts id);
    insert_mandate = λ intent hash credential db fine i. i;
    revoke_mandate = λ id db i. i;
  }

  -- If the attempts satisfy their indexes, whatever happens, in any order: a settlement has at most
  -- one captured attempt and at most one attempt under way, and the attempts satisfy their indexes
  -- again.
  pub serve_all-charges_once :
      (requests : List Request) (db : Db) (settlement_id : Text)
      → IsChargedOnceDb db
      → IsChargedOnceDb (serve_all crypto requests db)
        × (captured_attempts settlement_id (serve_all crypto requests db) ≤ 1)
        × (active_attempts settlement_id (serve_all crypto requests db) ≤ 1)
  unfolding IsChargedOnceDb
  serve_all-charges_once requests db settlement_id h =
      let after = serve_all-Preserves crypto IsChargedOnceDb IsChargedOnceDb-Laws requests db h in
      (after, after.captured settlement_id, after.active settlement_id)
