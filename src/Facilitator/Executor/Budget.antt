-- ===== src/Facilitator/Executor/Budget.antt =====
-- A settlement has at most three attempts by the checkout driver: `MAX_ATTEMPTS` of
-- packages/facilitator/src/executor.ts.
pub mod Runs
pub mod Bound
use hundi.Facilitator.Executor.Steps.{
  Wake, step, steps, run_once, resume_settling_run, resume_found, after_reverify,
}
use hundi.Facilitator.Executor.Attempts.{
  captured_payment, capture_driven, driven, end_attempt, next_attempt, order_created,
  run_attempt_loop, driver_attempts, is_driver_attempt, insert_attempt, attempt_insert_violation,
  initiate_attempt, new_attempt, receipt_of,
}
use hundi.Common.{
  Bool, if◌then◌else◌, ℕ, ◌+◌, ◌≤◌, ◌≡◌, refl, sym, arith, List, [], ◌∷◌, ◌++◌, Text, text, Option,
  none, some, Result, ok, err, Bool-cases, Option-cases, inl, inr, true, false, leb, ◌===◌,
}
use hundi.Core.Crypto.{Crypto}
use hundi.Facilitator.Db.{SettlementRow, AttemptRow, AttemptState, Method, Db}
use hundi.Facilitator.Table.{update}
use hundi.Facilitator.Action.{gets, pure, tx, Action, ◌>>=◌}
use hundi.Facilitator.Reconcile.{Reply}
use hundi.Facilitator.Preserves.{Preserves}
use hundi.Facilitator.Executor.{Run, creating_order, driving, creating_link, finished, max_attempts}

-- No settlement is over budget.
abbrev pub IsWithinBudget : Db → Type 0
IsWithinBudget db = (settlement_id : Text) → driver_attempts settlement_id db.attempts ≤ 3

-- And the settlement has used no more than so many.
abbrev pub Used : Text → ℕ → Db → Type 0
Used settlement_id n db = IsWithinBudget db × (driver_attempts settlement_id db.attempts ≤ n)

-- A run knows how many attempts it has used.
abbrev pub Counts : Run → Db → Type 0
Counts (creating_order settlement n attempt_id) db = Used settlement.id n db
Counts (driving settlement n attempt_id order) db = Used settlement.id n db
Counts (creating_link settlement last_attempt_id link_attempt_id receipt) db = IsWithinBudget db
Counts (finished outcome) db = IsWithinBudget db

-- What holds after a call that returns, or throws.
abbrev pub After : {A : Type 0} → (A → Db → Type 0) → Result A × Db → Type 0
After Q (ok a, db) = Q a db
After Q (err e, db) = IsWithinBudget db

unfoldable pub Leads : {A : Type 0} → (Db → Type 0) → Action A → (A → Db → Type 0) → Type 0
Leads P m Q = (db : Db) → P db → After Q (m db)

pub Leads->>= :
    {A B : Type 0} (P : Db → Type 0) (R : A → Db → Type 0) (Q : B → Db → Type 0) (m : Action A)
    (k : A → Action B)
    → Leads P m R
    → ((a : A) → Leads (R a) (k a) Q)
    → Leads P (m >>= k) Q
unfolding Leads ◌>>=◌
Leads->>= {A = A} {B = B} P R Q m k hm hk db p = go (m db) (hm db p)
  where
    go :
        (r : Result A × Db)
        → After R r
        → After Q (elim r.0 as (λ _. Result B × Db) [ ok a ↦ k a r.1 | err e ↦ (err e, r.1) ])
    go (ok a, db') h = hk a db' h
    go (err e, db') h = h

-- A call that preserves the count.
pub Leads-Preserves :
    {A : Type 0} (id : Text) (n : ℕ) (m : Action A)
    → Preserves (Used id n) m
    → Leads (Used id n) m (λ a. Used id n)
unfolding Leads Preserves
Leads-Preserves {A = A} id n m h db p = go (m db) (h db p)
  where
    go : (r : Result A × Db) → Used id n r.1 → After (λ a. Used id n) r
    go (ok a, db') u = u
    go (err e, db') u = u.0

pub driver_attempts-append :
    (id : Text) (rows : List AttemptRow) (row : AttemptRow)
    → driver_attempts id (rows ++ row ∷ [])
      ≡ driver_attempts id rows + (if is_driver_attempt id row then 1 else 0)
unfolding driver_attempts
driver_attempts-append id [] row = omega arith
driver_attempts-append id (r ∷ rows) row = omega (arith, driver_attempts-append id rows row)

pub driver_attempts-update :
    (id : Text) (p : AttemptRow → Bool) (f : AttemptRow → AttemptRow) (rows : List AttemptRow)
    → ((r : AttemptRow) → is_driver_attempt id (f r) ≡ is_driver_attempt id r)
    → driver_attempts id (update p f rows) ≡ driver_attempts id rows
unfolding driver_attempts update
driver_attempts-update id p f [] same = refl
driver_attempts-update id p f (r ∷ rows) same =
    ground (arith, driver_attempts-update id p f rows same, same r)

pub Leads-tx :
    {A : Type 0} (P : Db → Type 0) (Q : A → Db → Type 0) (m : Action A)
    → ((db : Db) → P db → IsWithinBudget db)
    → Leads P m Q
    → Leads P (tx m) Q
unfolding Leads tx
Leads-tx {A = A} P Q m w h db p = go (m db) (h db p)
  where
    go :
        (r : Result A × Db)
        → After Q r
        → After Q (elim r.0 as (λ _. Result A × Db) [ ok a ↦ (ok a, r.1) | err e ↦ (err e, db) ])
    go (ok a, db') q = q
    go (err e, db') q = w db p

pub Leads-pure :
    {A : Type 0} (P : Db → Type 0) (Q : A → Db → Type 0) (a : A)
    → ((db : Db) → P db → Q a db)
    → Leads P (pure a) Q
unfolding Leads
Leads-pure P Q a h = h

pub Leads-if :
    {A : Type 0} (P : Db → Type 0) (Q : A → Db → Type 0) (b : Bool) (x y : Action A)
    → Leads P x Q
    → Leads P y Q
    → Leads P (if b then x else y) Q
Leads-if P Q true x y h k = h
Leads-if P Q false x y h k = k

pub Leads-weaken :
    {A : Type 0} (P R : Db → Type 0) (Q : A → Db → Type 0) (m : Action A)
    → ((db : Db) → P db → R db)
    → Leads R m Q
    → Leads P m Q
unfolding Leads
Leads-weaken P R Q m f h db p = h db (f db p)

pub Leads-gets : {A : Type 0} (P : Db → Type 0) (f : Db → A) → Leads P (gets f) (λ a. P)
unfolding Leads
Leads-gets P f db p = p
