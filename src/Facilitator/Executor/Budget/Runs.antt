-- ===== src/Facilitator/Executor/Budget/Runs.antt =====
-- The runs of packages/facilitator/src/executor.ts stay within the budget of attempts.
use hundi.Facilitator.SettlementService.{log_event}
use hundi.Core.Value.{Value}
use hundi.Facilitator.Wallet.Rows.{same_text}
use hundi.Facilitator.Executor.Attempts.{
  captured_payment, capture_driven, driven, end_attempt, next_attempt, order_created,
  run_attempt_loop, driver_attempts, is_driver_attempt, insert_attempt, attempt_insert_violation,
  initiate_attempt, fail_driven, fail_uncreated,
}
use hundi.Common.{
  ◌∙◌, ap, Bool, ℕ, ◌+◌, ◌≤◌, ◌≡◌, refl, sym, arith, List, [], ◌∷◌, ◌++◌, Text, Option, none, some,
  Bool-cases, Option-cases, inl, inr, leb, find,
}
use hundi.Core.Crypto.{Crypto}
use hundi.Facilitator.Db.{SettlementRow, AttemptRow, AttemptState, Db}
use hundi.Facilitator.Table.{update}
use hundi.Facilitator.Action.{tx, Action, ◌>>=◌, modify}
use hundi.Facilitator.Ledger.{AppendLedgerInput, append_ledger}
use hundi.Facilitator.StateMachine.{
  transition_attempt, can_move_attempt, attempt_in_state, attempt_moved, attempt_violation,
}
use hundi.Facilitator.Reconcile.{Reply}
use hundi.Facilitator.App.Charges.{append_ledger-attempts, transition_settlement-attempts}
use hundi.Facilitator.Preserves.{
  Preserves-moves, Preserves-pure, Preserves->>=, Preserves, CaptureLaws,
}
use hundi.Facilitator.Preserves.Captures.{apply_capture-Preserves}
use hundi.Facilitator.Executor.{
  ExecutionOutcome, SettleViaCheckoutResult, creating_order, driving, creating_link, finished,
  max_attempts,
}
use hundi.Facilitator.Executor.Budget.{
  IsWithinBudget, Used, Counts, Leads, Leads->>=, Leads-Preserves, Leads-tx, Leads-pure, Leads-if,
  Leads-weaken, driver_attempts-append, driver_attempts-update,
}

module _ (sid : Text) (n : ℕ) where
  -- A call that keeps each count.
  pub kept :
      {A : Type 0} (m : Action A)
      → ((id : Text) (db : Db)
          → driver_attempts id (m db).1.attempts ≡ driver_attempts id db.attempts)
      → Preserves (Used sid n) m
  unfolding Preserves
  kept m h db u = ((λ id. rw (h id db) (u.0 id)), rw (h sid db) u.1)

  columns :
      (p : AttemptRow → Bool) (f : ℕ → AttemptRow → AttemptRow)
      → ((id : Text) (clock : ℕ) (r : AttemptRow)
          → is_driver_attempt id (f clock r) ≡ is_driver_attempt id r)
      → Preserves
          (Used sid n)
          (modify (λ db. record db { attempts = update p (f db.clock) db.attempts }))
  columns p f same =
      kept _ (λ id db. driver_attempts-update id p (f db.clock) db.attempts (same id db.clock))

  pub transition_attempt-Used :
      (id : Text) (from to : AttemptState) → Preserves (Used sid n) (transition_attempt id from to)
  unfolding transition_attempt
  transition_attempt-Used id from to = kept _ go
    where
      go :
          (of_ : Text) (db : Db)
          → driver_attempts of_ (transition_attempt id from to db).1.attempts
            ≡ driver_attempts of_ db.attempts
      go of_ db = elim (Bool-cases (can_move_attempt from to)) [
        | inr illegal ↦ rw illegal refl
        | inl legal ↦ elim (Option-cases (find (attempt_in_state id from) db.attempts)) [
          | inl missing ↦ rw (legal, missing) refl
          | inr (row, found) ↦
              elim (Option-cases (attempt_violation (attempt_moved db.clock to row) db.attempts)) [
                | inr (constraint, bad) ↦ rw (legal, found, bad) refl
                | inl fine ↦
                    rw (legal, found, fine)
                      (driver_attempts-update of_ (attempt_in_state id from)
                        (attempt_moved db.clock to) db.attempts (λ r. refl))
              ]
        ]
      ]

  module _ (crypto : Crypto) where
    pub append_ledger-Used :
        (input : AppendLedgerInput) → Preserves (Used sid n) (append_ledger crypto input)
    append_ledger-Used input =
        kept _ (λ id db. ap (driver_attempts id) (append_ledger-attempts crypto input db))

    Used-CaptureLaws : CaptureLaws crypto (Used sid n)
    Used-CaptureLaws = record {
      append = append_ledger-Used;
      move_attempt = transition_attempt-Used;
      set_payment = λ id payment. columns _ _ (λ _ _ r. refl);
      move_settlement = λ id from to reason ne. kept _ (λ of_ db.
          ap (driver_attempts of_) (transition_settlement-attempts id from to reason db));
    }

-- There is room for one more attempt.
abbrev Room : Text → ℕ → Db → Type 0
Room sid n db = IsWithinBudget db × (driver_attempts sid db.attempts + 1 ≤ n)

one_more :
    (id : Text) (rows : List AttemptRow) (row : AttemptRow)
    → driver_attempts id (rows ++ row ∷ []) ≤ driver_attempts id rows + 1
one_more id rows row = ground (arith, driver_attempts-append id rows row)

inserted-Used :
    (sid : Text) (n : ℕ) (row : AttemptRow) (db : Db)
    → n ≤ 3
    → row.settlement_id ≡ sid
    → Room sid n db
    → Used sid n (record db { attempts = db.attempts ++ row ∷ [] })
inserted-Used sid n row db few same (within, room) = (
  λ id. elim (Bool-cases (is_driver_attempt id row)) [
    | inr other ↦ ground (arith, driver_attempts-append id db.attempts row, within id)
    | inl counted ↦
        let ids : id ≡ sid = sym (same_text row.settlement_id id (ground arith)) ∙ same in
        rw ids (omega (arith, one_more sid db.attempts row, room, few))
  ],
  omega (arith, one_more sid db.attempts row, room),
)

module _ (crypto : Crypto) where
  pub log_event-Used :
      (sid : Text) (n : ℕ) (id event_type actor : Text) (payload : Value)
      → Preserves (Used sid n) (log_event crypto id event_type actor payload)
  log_event-Used sid n id event_type actor payload =
      Preserves->>= _ _ _ (append_ledger-Used sid n crypto _) (λ _. Preserves-pure _ tt)

  insert_attempt-Used :
      (sid : Text) (n : ℕ) (row : ℕ → AttemptRow)
      → n ≤ 3
      → ((clock : ℕ) → (row clock).settlement_id ≡ sid)
      → Leads (Room sid n) (insert_attempt row) (λ _. Used sid n)
  unfolding Leads insert_attempt
  insert_attempt-Used sid n row few same db room =
      elim (Option-cases (attempt_insert_violation (row db.clock) db)) [
        | inr (constraint, bad) ↦ rw bad room.0
        | inl fine ↦ rw fine (inserted-Used sid n (row db.clock) db few (same db.clock) room)
      ]

  next_attempt-Counts :
      (settlement : SettlementRow) (n : ℕ) (last fresh : Text)
      → Leads (Room settlement.id n) (next_attempt crypto settlement n last fresh) Counts
  unfolding next_attempt initiate_attempt
  next_attempt-Counts settlement n last fresh = elim (Bool-cases (leb n max_attempts)) [
    | inl few ↦ rw few (
        Leads->>= _ (λ _. Used settlement.id n) _ _ _
          (Leads-tx _ _ _ (λ db r. r.0)
            (Leads->>= _ (λ _. Used settlement.id n) _ _ _
              (insert_attempt-Used settlement.id n _ (ground arith) (λ clock. refl))
              (λ _. Leads-Preserves _ _ _ (log_event-Used settlement.id n _ _ _ _))))
          (λ _. Leads-pure _ _ (creating_order settlement n fresh) (λ db u. u)))
    | inr many ↦ rw many (Leads-pure _ _ (creating_link settlement last fresh _) (λ db r. r.0))
  ]

  pub run_attempt_loop-Counts :
      (settlement : SettlementRow) (fresh : Text)
      → Leads IsWithinBudget (run_attempt_loop crypto settlement fresh) Counts
  unfolding run_attempt_loop Leads ◌>>=◌
  run_attempt_loop-Counts settlement fresh db w =
      next_attempt-Counts settlement (driver_attempts settlement.id db.attempts + 1) [] fresh db
        (w, omega arith)

  -- The head of the loop, after an attempt that used its share.
  again :
      {A : Type 0} (settlement : SettlementRow) (n : ℕ) (m : Action A) (last fresh : Text)
      → Preserves (Used settlement.id n) m
      → Leads
          (Used settlement.id n)
          (tx m >>= λ _. next_attempt crypto settlement (n + 1) last fresh)
          Counts
  again settlement n m last fresh h =
      Leads->>= _ (λ _. Used settlement.id n) _ _ _
        (Leads-tx _ _ _ (λ db u. u.0) (Leads-Preserves _ _ _ h))
        (λ _.
          Leads-weaken _ _ _ _ (λ db u. (u.0, omega (arith, u.1)))
            (next_attempt-Counts settlement (n + 1) last fresh))

  pub order_created-Counts :
      (settlement : SettlementRow) (n : ℕ) (attempt_id : Text) (reply : Reply Text) (fresh : Text)
      → Leads
          (Used settlement.id n)
          (order_created crypto settlement n attempt_id reply fresh)
          Counts
  unfolding order_created fail_uncreated
  order_created-Counts settlement n attempt_id (Reply.failed message) fresh =
      again settlement n _ attempt_id fresh (
        Preserves->>= _ _ _ (transition_attempt-Used settlement.id n _ _ _)
          (λ _. log_event-Used settlement.id n _ _ _ _))
  order_created-Counts settlement n attempt_id (Reply.replied order) fresh =
      Leads->>= _ (λ _. Used settlement.id n) _ _ _
        (Leads-Preserves _ _ _ (columns settlement.id n _ _ (λ _ _ r. refl)))
        (λ _. Leads-pure _ _ (driving settlement n attempt_id order) (λ db u. u))

  end_attempt-Counts :
      (settlement : SettlementRow) (n : ℕ) (attempt_id order : Text)
      (result : SettleViaCheckoutResult) (fresh : Text)
      → Leads
          (Used settlement.id n)
          (end_attempt crypto settlement n attempt_id order result fresh)
          Counts
  unfolding end_attempt fail_driven
  end_attempt-Counts settlement n attempt_id order result fresh =
      again settlement n _ attempt_id fresh (
        Preserves->>= _ _ _ (Preserves-moves _ _ (transition_attempt-Used settlement.id n _ _ _))
          (λ _. log_event-Used settlement.id n _ _ _ _))

  capture_driven-Counts :
      (settlement : SettlementRow) (n : ℕ) (attempt_id order : Text)
      (result : SettleViaCheckoutResult) (fresh : Text) (payment : Option Text)
      → Leads
          (Used settlement.id n)
          (capture_driven crypto settlement n attempt_id order result fresh payment)
          Counts
  unfolding capture_driven
  capture_driven-Counts settlement n attempt_id order result fresh none =
      end_attempt-Counts settlement n attempt_id order result fresh
  capture_driven-Counts settlement n attempt_id order result fresh (some payment_id) =
      Leads->>= _ (λ _. Used settlement.id n) _ _ _
        (Leads-Preserves _ _ _
          (apply_capture-Preserves crypto _ (Used-CaptureLaws settlement.id n crypto) _ payment_id))
        (λ captured.
          Leads-if _ _ captured _ _
            (Leads-pure _ _ (finished (ExecutionOutcome.captured attempt_id payment_id))
              (λ db u. u.0))
            (end_attempt-Counts settlement n attempt_id order result fresh))

  pub driven-Counts :
      (settlement : SettlementRow) (n : ℕ) (attempt_id order : Text)
      (reply : Reply SettleViaCheckoutResult) (fresh : Text)
      → Leads
          (Used settlement.id n)
          (driven crypto settlement n attempt_id order reply fresh)
          Counts
  unfolding driven Leads
  driven-Counts settlement n attempt_id order (Reply.failed message) fresh = λ db u. u.0
  driven-Counts settlement n attempt_id order (Reply.replied result) fresh =
      capture_driven-Counts settlement n attempt_id order result fresh (captured_payment result)
