-- ===== src/Facilitator/Wallet/Entering.antt =====
-- A settlement enters `settling` only within its mandate's ceiling: reverifyAndEnterSettling of
-- packages/facilitator/src/executor.ts leaves a solvent wallet solvent.
use hundi.Facilitator.Wallet.Fits.{passed-within, fits, enters-IsSolvent}
use hundi.Facilitator.Ledger.{append_ledger, AppendLedgerInput}
use hundi.Facilitator.Keeps.{append_ledger-Keeps, Keeps}
use hundi.Common.{
  Exception, ℕ, ◌+◌, ◌≤◌, ◌≡◌, ◌≢◌, refl, sym, inl, inr, Bool, true, false, Option, none, some,
  Text, find, ◌===◌, if◌then◌else◌, arith, ok, err, Result, Result-cases, Option-cases, Bool-cases,
}
use mathlib.Core.Path.{subst}
use hundi.Core.Crypto.{Crypto}
use hundi.Core.Value.{nat_of}
use hundi.Core.Verify.{Pass}
use hundi.Core.Verify.Checks.{RejectionCode, Gate, passed, rejected, threw}
use hundi.Facilitator.Db.{SettlementState, SettlementRow, MandateRow, Db}
use hundi.Facilitator.Action.{gets, Action, ◌>>=◌, moves}
use hundi.Facilitator.StateMachine.{SettlementState-discrete, is_state, transition_settlement}
use hundi.Facilitator.MandateRepo.{has_mandate_id, get_mandate_row}
use hundi.Facilitator.VerifyLogic.{compute_mandate_cart_hash, build_verify_ctx}
use hundi.Facilitator.Preserves.{
  Preserves, Preserves->>=, Preserves-tx, Preserves-moves, Preserves-pure,
}
use hundi.Facilitator.Executor.Reverify.{
  enter_settling, log_refused, reverify_known, reverify_found, reverify_and_enter_settling,
}
use hundi.Facilitator.Wallet.{committed, IsSolvent, IsSolventDb}
use hundi.Facilitator.Wallet.Moves.{transition_settlement-IsSolvent}

-- What follows a call that left a solvent wallet.
after_call :
    {A B : Type 0} (m : Action A) (k : A → Action B) (db : Db)
    → IsSolventDb (m db).1
    → ((a : A) → Preserves IsSolventDb (k a))
    → IsSolventDb ((m >>= k) db).1
unfolding ◌>>=◌ Preserves
after_call {A = A} {B = B} m k db h hk = go (m db) h
  where
    go :
        (r : Result A × Db)
        → IsSolventDb r.1
        → IsSolventDb (elim r.0 as (λ _. Result B × Db) [ ok a ↦ k a r.1 | err e ↦ (err e, r.1) ]).1
    go (ok a, db') j = hk a db' j
    go (err x, db') j = j

-- A hash that differs never passes.
chain_passed :
    (same : Bool) (g : Gate Pass) (p : Pass)
    → (if same then g else rejected RejectionCode.hash_link_mismatch none) ≡ passed p
    → g ≡ passed p
chain_passed true g p e = e
chain_passed false g p e = absurd (cc e)

module _ (crypto : Crypto) where
  pub same_wallet-IsSolvent :
      (db db' : Db)
      → db'.mandates ≡ db.mandates
      → db'.settlements ≡ db.settlements
      → IsSolventDb db
      → IsSolventDb db'
  unfolding IsSolventDb
  same_wallet-IsSolvent db db' p q h =
      subst (λ ms. IsSolvent ms db'.settlements) (sym p) (subst (IsSolvent db.mandates) (sym q) h)

  -- An entry of the ledger changes no promise.
  pub append_ledger-IsSolvent :
      (input : AppendLedgerInput) → Preserves IsSolventDb (append_ledger crypto input)
  unfolding Preserves Keeps
  append_ledger-IsSolvent input db h =
      same_wallet-IsSolvent db (append_ledger crypto input db).1
        (append_ledger-Keeps (λ d. d.mandates) (λ _ _. refl) crypto input db)
        (append_ledger-Keeps (λ d. d.settlements) (λ _ _. refl) crypto input db) h

  pub move-IsSolvent :
      (id : Text) (from to : SettlementState) (reason : Option Text)
      → to ≢ SettlementState.settling
      → Preserves IsSolventDb (transition_settlement id from to reason)
  unfolding Preserves
  move-IsSolvent id from to reason ne db h =
      transition_settlement-IsSolvent id from to reason ne db h

  log_refused-IsSolvent :
      (id : Text) (code : RejectionCode) (detail : Option Text) (moved : Bool)
      → Preserves IsSolventDb (log_refused crypto id code detail moved)
  unfolding log_refused
  log_refused-IsSolvent id code detail false = Preserves-pure IsSolventDb _
  log_refused-IsSolvent id code detail true =
      Preserves->>= IsSolventDb _ _
        (Preserves->>= IsSolventDb _ _ (append_ledger-IsSolvent _)
          (λ _. Preserves-pure IsSolventDb tt))
        (λ _. Preserves-pure IsSolventDb _)

  -- A refusal moves the settlement to `rejected`.
  refuses-IsSolvent :
      (id : Text) (s : SettlementRow) (code : RejectionCode) (detail : Option Text)
      → Preserves IsSolventDb (enter_settling crypto id s (rejected code detail))
  unfolding enter_settling
  refuses-IsSolvent id s code detail =
      Preserves->>= IsSolventDb _ _
        (Preserves-moves IsSolventDb _ (move-IsSolvent id _ _ _ (λ e. cc e)))
        (λ moved. log_refused-IsSolvent id code detail moved)

  moves-db : (m : Action (Unit {0})) (db : Db) → (moves m db).1 ≡ (m db).1
  unfolding moves
  moves-db m db = go (m db)
    where
      go :
          (r : Result (Unit {0}) × Db)
          → (elim r.0 as (λ _. Result Bool × Db) [
            | ok _ ↦ (ok true, r.1)
            | err Exception.stale_transition ↦ (ok false, r.1)
            | err x ↦ (err x, r.1)
          ]).1
            ≡ r.1
      go r = ground arith

  module _ (id : Text) (s : SettlementRow) (m : MandateRow) (db : Db) (h : IsSolventDb db)
      (found : find (λ r. r.id === id) db.settlements ≡ some s)
      (at : s.state ≡ SettlementState.approved)
      (registered : find (has_mandate_id s.mandate_id) db.mandates ≡ some m) where
    passes-IsSolvent :
        (p : Pass)
        → committed s.mandate_id db.settlements + s.amount_paise ≤ nat_of m.intent.ceiling_paise
        → IsSolventDb (enter_settling crypto id s (passed p) db).1
    unfolding enter_settling
    passes-IsSolvent p fit =
        after_call _ _ db
          (subst IsSolventDb
            (sym (
              moves-db
                (transition_settlement id SettlementState.approved SettlementState.settling none)
                db))
            (enters-IsSolvent crypto id s m db h found at registered fit))
          (λ moved. Preserves-pure IsSolventDb _)

    gate-IsSolvent :
        (g : Gate Pass)
        → ((p : Pass)
            → g ≡ passed p
            → committed s.mandate_id db.settlements + s.amount_paise
              ≤ nat_of m.intent.ceiling_paise)
        → IsSolventDb (enter_settling crypto id s g db).1
    unfolding enter_settling Preserves
    gate-IsSolvent (passed p) fit = passes-IsSolvent p (fit p refl)
    gate-IsSolvent (rejected code detail) fit = refuses-IsSolvent id s code detail db h
    gate-IsSolvent (threw e) fit = h

    -- The gate is asked of the stored intent and the stored cart.
    known-IsSolvent : (now : ℕ) → IsSolventDb (reverify_known crypto id now s (some m) db).1
    unfolding reverify_known build_verify_ctx ◌>>=◌
    known-IsSolvent now = elim (Result-cases (compute_mandate_cart_hash crypto m.intent s.cart)) [
      | inr (x, failed) ↦ rw failed h
      | inl (hash, hashed) ↦ rw hashed (
          gate-IsSolvent _ (λ p e. fits crypto id s m db h found at registered (
            passed-within crypto db m.intent s.cart now (some id) hash p
              (chain_passed (hash === s.mandate_cart_hash_hex) _ p e))))
    ]

  unknown-IsSolvent :
      (id : Text) (now : ℕ) (s : SettlementRow) (db : Db)
      → IsSolventDb db
      → IsSolventDb (reverify_known crypto id now s none db).1
  unfolding reverify_known
  unknown-IsSolvent id now s db h = h

  found-IsSolvent :
      (id : Text) (now : ℕ) (db : Db) (o : Option SettlementRow)
      → find (λ r. r.id === id) db.settlements ≡ o
      → IsSolventDb db
      → IsSolventDb (reverify_found crypto id now o db).1
  unfolding reverify_found ◌>>=◌ SettlementState-discrete get_mandate_row
  found-IsSolvent id now db none found h = h
  found-IsSolvent id now db (some s) found h =
      elim (Bool-cases (is_state s.state SettlementState.approved)) [
        | inr other ↦ rw other h
        | inl at ↦ elim (Option-cases (find (has_mandate_id s.mandate_id) db.mandates)) [
          | inl missing ↦ rw at (rw missing (unknown-IsSolvent id now s db h))
          | inr (m, registered) ↦
              rw at
                (rw registered (known-IsSolvent id s m db h found (ground arith) registered now))
        ]
      ]

  looks_up-IsSolvent :
      (id : Text) (now : ℕ)
      → Preserves IsSolventDb (
          gets (λ db. find (λ s. s.id === id) db.settlements) >>= λ found.
          reverify_found crypto id now found)
  unfolding Preserves ◌>>=◌
  looks_up-IsSolvent id now db h =
      found-IsSolvent id now db (find (λ s. s.id === id) db.settlements) refl h

  -- reverifyAndEnterSettling leaves a solvent wallet solvent.
  pub reverify_and_enter_settling-IsSolvent :
      (id : Text) (now : ℕ) → Preserves IsSolventDb (reverify_and_enter_settling crypto id now)
  unfolding reverify_and_enter_settling
  reverify_and_enter_settling-IsSolvent id now =
      Preserves-tx IsSolventDb _ (looks_up-IsSolvent id now)
