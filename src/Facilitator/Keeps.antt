-- ===== src/Facilitator/Keeps.antt =====
-- Calls that leave a part of the database as it was, whether they return or throw.
use hundi.Common.{
  none, some, true, false, Bool, Exception, err, List, ◌≡◌, refl, ◌∙◌, Option, Text, Result, ok,
  err, arith,
}
use hundi.Facilitator.Db.{
  SettlementState, IdempotencyRow, LedgerRow, ApprovalRow, MandateRow, SettlementRow, AttemptState,
  Db,
}
use hundi.Facilitator.Action.{Action, ◌>>=◌, modify, need, ensure, tx, moves}
use hundi.Core.CanonicalJson.{canonical_json}
use hundi.Core.Crypto.{Crypto}
use hundi.Facilitator.StateMachine.{transition_settlement, transition_attempt}
use hundi.Facilitator.Ledger.{AppendLedgerInput, append_ledger}

module _ {X : Type 0} (f : Db → X) where
  unfoldable pub Keeps : {A : Type 0} → Action A → Type 0
  Keeps m = (db : Db) → f (m db).1 ≡ f db

  -- A chain keeps what its links keep.
  pub Keeps->>= :
      {A B : Type 0} (m : Action A) (k : A → Action B)
      → Keeps m
      → ((a : A) → Keeps (k a))
      → Keeps (m >>= k)
  unfolding Keeps ◌>>=◌
  Keeps->>= {A = A} {B = B} m k h hk db = go (m db) (h db)
    where
      go :
          (r : Result A × Db)
          → f r.1 ≡ f db
          → f (elim r.0 as (λ _. Result B × Db) [ ok a ↦ k a r.1 | err e ↦ (err e, r.1) ]).1 ≡ f db
      go (ok a, db') e = hk a db' ∙ e
      go (err x, db') e = e

  -- A call that writes nothing.
  pub still-Keeps : {A : Type 0} (r : Db → Result A) → Keeps (λ db. (r db, db))
  unfolding Keeps
  still-Keeps r db = refl

-- Checks that throw or go on write nothing.
pub need-Keeps :
    {X : Type 0} (f : Db → X) {A : Type 0} (e : Exception) (o : Option A) → Keeps f (need e o)
need-Keeps f e none = still-Keeps f (λ db. err e)
need-Keeps f e (some a) = still-Keeps f (λ db. ok a)

pub ensure-Keeps : {X : Type 0} (f : Db → X) (e : Exception) (b : Bool) → Keeps f (ensure e b)
ensure-Keeps f e true = still-Keeps f (λ db. ok tt)
ensure-Keeps f e false = still-Keeps f (λ db. err e)

-- A transaction keeps what its call keeps.
pub tx-Keeps : {X : Type 0} (f : Db → X) {A : Type 0} (m : Action A) → Keeps f m → Keeps f (tx m)
unfolding Keeps tx
tx-Keeps f {A = A} m h db = go (m db) (h db)
  where
    go :
        (r : Result A × Db)
        → f r.1 ≡ f db
        → f (elim r.0 as (λ _. Result A × Db) [ ok a ↦ (ok a, r.1) | err e ↦ (err e, db) ]).1 ≡ f db
    go (ok a, db') e = e
    go (err x, db') e = refl

abbrev pub keys_of : Db → List IdempotencyRow
keys_of db = db.idempotency_keys

pub transition_settlement-Keeps :
    (id : Text) (from to : SettlementState) (reason : Option Text)
    → Keeps keys_of (transition_settlement id from to reason)
unfolding Keeps transition_settlement
transition_settlement-Keeps id from to reason db = ground arith

abbrev pub settlements_of : Db → List SettlementRow
settlements_of db = db.settlements

pub transition_attempt-Keeps :
    (id : Text) (from to : AttemptState) → Keeps settlements_of (transition_attempt id from to)
unfolding Keeps transition_attempt
transition_attempt-Keeps id from to db = ground arith

module _ {X : Type 0} (f : Db → X)
    (f-ledger : (ledger : List LedgerRow) (db : Db)
      → f (record db { ledger = ledger }) ≡ f db) where
  ledger_only-Keeps :
      (g : Db → List LedgerRow) → Keeps f (modify (λ db. record db { ledger = g db }))
  unfolding Keeps
  ledger_only-Keeps g db = f-ledger (g db) db

  -- An append keeps what does not read the ledger.
  pub append_ledger-Keeps :
      (crypto : Crypto) (input : AppendLedgerInput) → Keeps f (append_ledger crypto input)
  unfolding append_ledger
  append_ledger-Keeps crypto input = Keeps->>= f _ _ (still-Keeps f (λ db. ok _)) (λ prev.
      Keeps->>= f _ _ (still-Keeps f (λ db. canonical_json _)) (λ bytes.
        Keeps->>= f _ _ (still-Keeps f (λ db. ok _))
          (λ rows. Keeps->>= f _ _ (ledger_only-Keeps _) (λ _. still-Keeps f (λ db. ok _)))))

abbrev pub approvals_of : Db → List ApprovalRow
approvals_of db = db.approvals

abbrev pub mandates_of : Db → List MandateRow
mandates_of db = db.mandates

pub transition_settlement-Keeps-approvals :
    (id : Text) (from to : SettlementState) (reason : Option Text)
    → Keeps approvals_of (moves (transition_settlement id from to reason))
unfolding Keeps transition_settlement moves
transition_settlement-Keeps-approvals id from to reason db = ground arith
