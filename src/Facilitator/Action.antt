-- ===== src/Facilitator/Action.antt =====
-- A call that reads and writes the database and may throw. What was written before a throw stays
-- written, unless the call stands in `tx` (packages/facilitator/src/db/index.ts).
use hundi.Common.{
  arith, Option, some, none, ◌≡◌, refl, ◌∙◌, Bool, true, false, Result, ok, err, Exception,
  stale_transition, List, [], ◌∷◌,
}
use hundi.Facilitator.Db.{Db}

abbrev pub Action : Type 0 → Type 0
Action A = Db → Result A × Db

module _ {A : Type 0} where
  abbrev pub pure : A → Action A
  pure a db = (ok a, db)

  abbrev pub throw : Exception → Action A
  throw e db = (err e, db)

  abbrev pub gets : (Db → A) → Action A
  gets f db = (ok (f db), db)

  -- A result of pure code.
  abbrev pub lift : Result A → Action A
  lift r db = (r, db)

abbrev pub modify : (Db → Db) → Action (Unit {0})
modify f db = (ok tt, f db)

infixl 5 ◌>>=◌ ◌>>◌
unfoldable pub ◌>>=◌ : {A B : Type 0} → Action A → (A → Action B) → Action B
◌>>=◌ m f db = let (r, db') = m db in elim r [ ok a ↦ f a db' | err e ↦ (err e, db') ]

abbrev pub ◌>>◌ : {B : Type 0} → Action (Unit {0}) → Action B → Action B
m >> k = m >>= λ _. k

-- An IMMEDIATE transaction: it commits if the call returns, and rolls back if it throws.
unfoldable pub tx : {A : Type 0} → Action A → Action A
tx m db = let (r, db') = m db in elim r [ ok a ↦ (ok a, db') | err e ↦ (err e, db) ]

-- `try { return m } catch (err) { return handler(err) }`
unfoldable pub recover : {A : Type 0} → Action A → (Exception → Action A) → Action A
recover m handler db = let (r, db') = m db in elim r [ ok a ↦ (ok a, db') | err e ↦ handler e db' ]

-- A loop over rows, with what each round gives.
unfoldable pub each : {A B : Type 0} → (A → Action B) → List A → Action (List B)
each f [] = pure []
each f (r ∷ rs) = do b ← f r; bs ← each f rs; pure (b ∷ bs)

-- `try { m; return true } catch (err) { if (err instanceof StaleTransition) return false; throw err }`
unfoldable pub moves : Action (Unit {0}) → Action Bool
moves m db =
    let (r, db') = m db in
    elim r [ ok _ ↦ (ok true, db') | err stale_transition ↦ (ok false, db') | err e ↦ (err e, db') ]

-- `if (!found) throw error`
abbrev pub need : {A : Type 0} → Exception → Option A → Action A
need e (some a) = pure a
need e none = throw e

-- `if (!good) throw error`
abbrev pub ensure : Exception → Bool → Action (Unit {0})
ensure e true = pure tt
ensure e false = throw e

-- Stepping through a chain whose first call is known to return.
pub after_ok :
    {A B : Type 0} (m : Action A) (k : A → Action B) {db db' : Db} {a : A} {r : Result B × Db}
    → m db ≡ (ok a, db')
    → k a db' ≡ r
    → (m >>= k) db ≡ r
unfolding ◌>>=◌
after_ok m k e f = cc (e, f)

-- A chain that returns has links that return.
pub >>=-returned :
    {A B : Type 0} (m : Action A) (k : A → Action B) (db : Db) {b : B} {db' : Db}
    → (m >>= k) db ≡ (ok b, db')
    → (a : A) × (db1 : Db) × (m db ≡ (ok a, db1)) × (k a db1 ≡ (ok b, db'))
unfolding ◌>>=◌
>>=-returned {A = A} {B = B} m k db {b} {db'} e = go (m db) refl e
  where
    go :
        (r : Result A × Db)
        → m db ≡ r
        → elim r.0 as (λ _. Result B × Db) [ ok a ↦ k a r.1 | err x ↦ (err x, r.1) ] ≡ (ok b, db')
        → (a : A) × (db1 : Db) × (m db ≡ (ok a, db1)) × (k a db1 ≡ (ok b, db'))
    go (ok a, db1) same e' = (a, db1, same, e')
    go (err x, db1) same e' = absurd (cc e')

pub tx-returned :
    {A : Type 0} (m : Action A) (db : Db) {a : A} {db' : Db}
    → tx m db ≡ (ok a, db')
    → m db ≡ (ok a, db')
unfolding tx
tx-returned {A = A} m db {a} {db'} e = go (m db) refl e
  where
    go :
        (r : Result A × Db)
        → m db ≡ r
        → elim r.0 as (λ _. Result A × Db) [ ok a' ↦ (ok a', r.1) | err x ↦ (err x, db) ]
          ≡ (ok a, db')
        → m db ≡ (ok a, db')
    go (ok a', db1) same e' = same ∙ e'
    go (err x, db1) same e' = absurd (cc e')

pub moves-true :
    (m : Action (Unit {0})) (db : Db) {db' : Db} → moves m db ≡ (ok true, db') → m db ≡ (ok tt, db')
unfolding moves
moves-true m db {db'} e = go (m db) refl e
  where
    go :
        (r : Result (Unit {0}) × Db)
        → m db ≡ r
        → elim r.0 as (λ _. Result Bool × Db) [
          | ok _ ↦ (ok true, r.1)
          | err stale_transition ↦ (ok false, r.1)
          | err x ↦ (err x, r.1)
        ]
          ≡ (ok true, db')
        → m db ≡ (ok tt, db')
    go r same e' = ground arith

pub moves-ok :
    (m : Action (Unit {0})) (db : Db) {db' : Db} → m db ≡ (ok tt, db') → moves m db ≡ (ok true, db')
unfolding moves
moves-ok m db e = cc e

pub moves-stale :
    (m : Action (Unit {0})) (db : Db) {db' : Db}
    → m db ≡ (err stale_transition, db')
    → moves m db ≡ (ok false, db')
unfolding moves
moves-stale m db e = cc e

pub tx-ok :
    {A : Type 0} (m : Action A) (db : Db) {a : A} {db' : Db}
    → m db ≡ (ok a, db')
    → tx m db ≡ (ok a, db')
unfolding tx
tx-ok m db e = cc e

pub need-returned :
    {A : Type 0} (e : Exception) (o : Option A) (db : Db) {a : A} {db' : Db}
    → need e o db ≡ (ok a, db')
    → (o ≡ some a) × (db' ≡ db)
need-returned e none db h = absurd (cc h)
need-returned e (some b) db h = (cc h, cc h)

pub ensure-returned :
    (e : Exception) (b : Bool) (db : Db) {u : Unit {0}} {db' : Db}
    → ensure e b db ≡ (ok u, db')
    → (b ≡ true) × (db' ≡ db)
ensure-returned e true db h = (refl, cc h)
ensure-returned e false db h = absurd (cc h)

pub after_err :
    {A B : Type 0} (m : Action A) (k : A → Action B) {db db' : Db} {e : Exception}
    → m db ≡ (err e, db')
    → (m >>= k) db ≡ (err e, db')
unfolding ◌>>=◌
after_err m k h = cc h

pub tx-err :
    {A : Type 0} (m : Action A) (db : Db) {e : Exception} {db' : Db}
    → m db ≡ (err e, db')
    → tx m db ≡ (err e, db)
unfolding tx
tx-err m db h = cc h

pub pure-returned :
    {A : Type 0} (a : A) (db : Db) {b : A} {db' : Db}
    → pure a db ≡ (ok b, db')
    → (a ≡ b) × (db ≡ db')
pure-returned a db e = (cc e, cc e)
