-- ===== src/Facilitator/Preserves.antt =====
-- Calls that preserve a property of the database of packages/facilitator, whether they return or
-- throw: what the program's elementary writes must satisfy, and what follows for its handlers.
pub mod Settlements
pub mod Captures
pub mod Orders
pub mod Mandates
pub mod Approvals
pub mod Execution
pub mod Rules
pub mod Events
pub mod Entering
pub mod Requests
use hundi.Common.{
  ◌≡◌, ◌≢◌, refl, true, false, Bool, Option, none, some, Text, ℕ, List, [], ◌∷◌, ◌++◌, Result, ok,
  err, Exception, if◌then◌else◌,
}
use hundi.Core.Crypto.{Crypto}
use hundi.Core.Mandate.{IntentMandate, CartMandate}
use hundi.Core.Signature.{Credential}
use hundi.Core.Value.{text_of}
use hundi.Facilitator.Db.{SettlementState, AttemptState, AttemptRow, Db}
use hundi.Facilitator.Action.{
  Action, ◌>>=◌, tx, moves, modify, gets, lift, pure, need, ensure, recover, each,
}
use hundi.Facilitator.Table.{update}
use hundi.Facilitator.StateMachine.{transition_settlement, transition_attempt}
use hundi.Facilitator.Ledger.{AppendLedgerInput, append_ledger}
use hundi.Facilitator.MandateRepo.{has_mandate_id}
use hundi.Facilitator.SettlementService.{new_settlement, insert_violation}
use hundi.Facilitator.Reconcile.{set_payment}
use hundi.Facilitator.Routes.Mandates.{mandate_exists, mandate_row}
use hundi.Facilitator.Executor.Attempts.{insert_attempt, set_order}
use hundi.Facilitator.Executor.Reverify.{reverify_and_enter_settling}
use hundi.Facilitator.Sweep.Rules.{bump_kicks}

-- The tables of the wallet are as they were.
abbrev pub IsUntouched : Db → Db → Type 0
IsUntouched db db' =
    (db'.mandates ≡ db.mandates)
    × (db'.settlements ≡ db.settlements)
    × (db'.attempts ≡ db.attempts)
    × (db'.ledger ≡ db.ledger)

module _ (P : Db → Type 0) where
  unfoldable pub Preserves : {A : Type 0} → Action A → Type 0
  Preserves m = (db : Db) → P db → P (m db).1

  pub Preserves->>= :
      {A B : Type 0} (m : Action A) (k : A → Action B)
      → Preserves m
      → ((a : A) → Preserves (k a))
      → Preserves (m >>= k)
  unfolding Preserves ◌>>=◌
  Preserves->>= {A = A} {B = B} m k h hk db i = go (m db) (h db i)
    where
      go :
          (r : Result A × Db)
          → P r.1
          → P (elim r.0 as (λ _. Result B × Db) [ ok a ↦ k a r.1 | err e ↦ (err e, r.1) ]).1
      go (ok a, db') j = hk a db' j
      go (err x, db') j = j

  pub Preserves-tx : {A : Type 0} (m : Action A) → Preserves m → Preserves (tx m)
  unfolding Preserves tx
  Preserves-tx {A = A} m h db i = go (m db) (h db i)
    where
      go :
          (r : Result A × Db)
          → P r.1
          → P (elim r.0 as (λ _. Result A × Db) [ ok a ↦ (ok a, r.1) | err e ↦ (err e, db) ]).1
      go (ok a, db') j = j
      go (err x, db') j = i

  pub Preserves-recover :
      {A : Type 0} (m : Action A) (handler : Exception → Action A)
      → Preserves m
      → ((e : Exception) → Preserves (handler e))
      → Preserves (recover m handler)
  unfolding Preserves recover
  Preserves-recover {A = A} m handler h hh db i = go (m db) (h db i)
    where
      go :
          (r : Result A × Db)
          → P r.1
          → P (elim r.0 as (λ _. Result A × Db) [ ok a ↦ (ok a, r.1) | err e ↦ handler e r.1 ]).1
      go (ok a, db') j = j
      go (err x, db') j = hh x db' j

  pub Preserves-moves : (m : Action (Unit {0})) → Preserves m → Preserves (moves m)
  unfolding Preserves moves
  Preserves-moves m h db i = go (m db) (h db i)
    where
      go :
          (r : Result (Unit {0}) × Db)
          → P r.1
          → P
              (elim r.0 as (λ _. Result Bool × Db) [
                | ok _ ↦ (ok true, r.1)
                | err Exception.stale_transition ↦ (ok false, r.1)
                | err x ↦ (err x, r.1)
              ]).1
      go (ok a, db') j = j
      go (err Exception.stale_transition, db') j = j
      go (err x, db') j = j

  -- A call that writes nothing.
  pub Preserves-still : {A : Type 0} (r : Db → Result A) → Preserves (λ db. (r db, db))
  unfolding Preserves
  Preserves-still r db i = i

  pub Preserves-lift : {A : Type 0} (r : Result A) → Preserves (lift r)
  Preserves-lift r = Preserves-still (λ db. r)

  pub Preserves-gets : {A : Type 0} (f : Db → A) → Preserves (gets f)
  Preserves-gets f = Preserves-still (λ db. ok (f db))

  pub Preserves-pure : {A : Type 0} (a : A) → Preserves (pure a)
  Preserves-pure a = Preserves-still (λ db. ok a)

  pub Preserves-need : {A : Type 0} (e : Exception) (o : Option A) → Preserves (need e o)
  Preserves-need e none = Preserves-still (λ db. err e)
  Preserves-need e (some a) = Preserves-still (λ db. ok a)

  pub Preserves-ensure : (e : Exception) (b : Bool) → Preserves (ensure e b)
  Preserves-ensure e true = Preserves-still (λ db. ok tt)
  Preserves-ensure e false = Preserves-still (λ db. err e)

  pub Preserves-if :
      {A : Type 0} (b : Bool) (x y : Action A)
      → Preserves x
      → Preserves y
      → Preserves (if b then x else y)
  Preserves-if true x y h k = h
  Preserves-if false x y h k = k

  pub Preserves-each :
      {A B : Type 0} (f : A → Action B) (rows : List A)
      → ((a : A) → Preserves (f a))
      → Preserves (each f rows)
  unfolding each
  Preserves-each f [] h = Preserves-pure []
  Preserves-each f (r ∷ rs) h =
      Preserves->>= (f r) _ (h r)
        (λ b. Preserves->>= (each f rs) _ (Preserves-each f rs h) (λ bs. Preserves-pure _))

-- What it must satisfy for applyCapture to preserve it.
pub record CaptureLaws (crypto : Crypto) (P : Db → Type 0) : Type 0 where
  pub append : (input : AppendLedgerInput) → Preserves P (append_ledger crypto input)
  pub move_attempt :
      (id : Text) (from to : AttemptState) → Preserves P (transition_attempt id from to)
  pub set_payment :
      (attempt_id payment_id : Text) → Preserves P (modify (set_payment attempt_id payment_id))
  pub move_settlement :
      (id : Text) (from to : SettlementState) (reason : Option Text)
      → to ≢ SettlementState.settling
      → Preserves P (transition_settlement id from to reason)

-- What a property must satisfy for every handler to preserve it: the elementary writes preserve it.
pub record Laws (crypto : Crypto) (P : Db → Type 0) : Type 0 where
  pub other : (db db' : Db) → IsUntouched db db' → P db → P db'
  pub append : (input : AppendLedgerInput) → Preserves P (append_ledger crypto input)
  pub insert_attempt : (row : ℕ → AttemptRow) → Preserves P (insert_attempt row)
  pub move_attempt :
      (id : Text) (from to : AttemptState) → Preserves P (transition_attempt id from to)
  pub set_payment :
      (attempt_id payment_id : Text) → Preserves P (modify (set_payment attempt_id payment_id))
  pub set_order :
      (attempt_id provider_order_id : Text)
      → Preserves P (modify (set_order attempt_id provider_order_id))
  pub insert_settlement :
      (settlement_id : Text) (intent : IntentMandate) (cart : CartMandate) (hash : Text) (db : Db)
      → insert_violation (new_settlement settlement_id intent cart hash db.clock) db ≡ none
      → P db
      → P (record db {
        settlements = db.settlements ++ new_settlement settlement_id intent cart hash db.clock ∷ [];
      })
  pub move_settlement :
      (id : Text) (from to : SettlementState) (reason : Option Text)
      → to ≢ SettlementState.settling
      → Preserves P (transition_settlement id from to reason)
  pub enter_settling :
      (settlement_id : Text) (now : ℕ)
      → Preserves P (reverify_and_enter_settling crypto settlement_id now)
  pub bump_kicks : (settlement_id : Text) → Preserves P (bump_kicks settlement_id)
  pub insert_mandate :
      (intent : IntentMandate) (hash : Text) (credential : Credential) (db : Db)
      → mandate_exists (text_of intent.mandate_id) hash db ≡ false
      → P db
      → P (record db { mandates = db.mandates ++ mandate_row intent hash credential db.clock ∷ [] })
  pub revoke_mandate :
      (mandate_id : Text) (db : Db)
      → P db
      → P (record db {
        mandates =
            update
              (has_mandate_id mandate_id)
              (λ row. record row { revoked_at = some db.clock })
              db.mandates;
      })

-- A call that leaves the wallet's tables.
pub Preserves-other :
    (crypto : Crypto) (P : Db → Type 0)
    → Laws crypto P
    → {A : Type 0} (m : Action A) → ((db : Db) → IsUntouched db (m db).1)
    → Preserves P m
unfolding Preserves
Preserves-other crypto P laws m h db i = laws.other db (m db).1 (h db) i

abbrev pub capture_laws : (crypto : Crypto) (P : Db → Type 0) → Laws crypto P → CaptureLaws crypto P
capture_laws crypto P laws = record {
  append = laws.append;
  move_attempt = laws.move_attempt;
  set_payment = laws.set_payment;
  move_settlement = laws.move_settlement;
}
