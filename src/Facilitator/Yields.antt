-- ===== src/Facilitator/Yields.antt =====
-- What the calls of packages/facilitator return, whatever the database, unless they throw.
use hundi.Common.{Bool, true, false, Result, ok, err, if◌then◌else◌}
use hundi.Facilitator.Db.{Db}
use hundi.Facilitator.Action.{Action, ◌>>=◌, pure}

module _ {A : Type 0} where
  abbrev pub Satisfies : (A → Type 0) → Result A → Type 0
  Satisfies Q (ok a) = Q a
  Satisfies Q (err e) = Unit

  unfoldable pub Yields : (A → Type 0) → Action A → Type 0
  Yields Q m = (db : Db) → Satisfies Q (m db).0

  pub Yields-pure : (Q : A → Type 0) (a : A) → Q a → Yields Q (pure a)
  unfolding Yields
  Yields-pure Q a h db = h

  pub Yields-err : (Q : A → Type 0) (m : Action A) → ((db : Db) → Satisfies Q (m db).0) → Yields Q m
  unfolding Yields
  Yields-err Q m h = h

  pub Yields-if :
      (Q : A → Type 0) (b : Bool) (x y : Action A)
      → Yields Q x
      → Yields Q y
      → Yields Q (if b then x else y)
  Yields-if Q true x y h k = h
  Yields-if Q false x y h k = k

  pub Yields-weaken :
      (Q R : A → Type 0) (m : Action A) → ((a : A) → Q a → R a) → Yields Q m → Yields R m
  unfolding Yields
  Yields-weaken Q R m f h db = go (m db).0 (h db)
    where
      go : (r : Result A) → Satisfies Q r → Satisfies R r
      go (ok a) q = f a q
      go (err e) q = tt

module _ {A B : Type 0} where
  -- A chain yields what its later calls yield on what the first one yields.
  pub Yields-chain :
      (R : A → Type 0) (Q : B → Type 0) (m : Action A) (k : A → Action B)
      → Yields R m
      → ((a : A) → R a → Yields Q (k a))
      → Yields Q (m >>= k)
  unfolding Yields ◌>>=◌
  Yields-chain R Q m k hm hk db = go (m db) (hm db)
    where
      go :
          (r : Result A × Db)
          → Satisfies R r.0
          → Satisfies Q
              (elim r.0 as (λ _. Result B × Db) [ ok a ↦ k a r.1 | err e ↦ (err e, r.1) ]).0
      go (ok a, db') h = hk a h db'
      go (err e, db') h = tt

  pub Yields->>= :
      (Q : B → Type 0) (m : Action A) (k : A → Action B)
      → ((a : A) → Yields Q (k a))
      → Yields Q (m >>= k)
  unfolding Yields ◌>>=◌
  Yields->>= Q m k hk db = go (m db)
    where
      go :
          (r : Result A × Db)
          → Satisfies Q
              (elim r.0 as (λ _. Result B × Db) [ ok a ↦ k a r.1 | err e ↦ (err e, r.1) ]).0
      go (ok a, db') = hk a db'
      go (err e, db') = tt
