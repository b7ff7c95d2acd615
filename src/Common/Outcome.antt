-- ===== src/Common/Outcome.antt =====
-- What a call returns or throws.
use Prim.Native.Nat.{ℕ}
use mathlib.Core.Path.{◌≡◌, refl}
use mathlib.Core.Logic.{◌⊎◌, inl, inr}
use hundi.Common.Strings.{Text}

-- The indexes of db/schema.sql that an INSERT or UPDATE can violate.
pub data Constraint : Type 0 where
  primary_key unique_intent_hash one_live_settlement_per_mandate one_settlement_per_cart :
      Constraint
  unique_receipt one_active_attempt one_captured_attempt foreign_key : Constraint

-- Why `canonicalJson` throws a TypeError.
pub data NotCanonical : Type 0 where
  non_finite non_integer unsafe_integer negative_zero bigint undefined function : NotCanonical
  unsupported : NotCanonical

-- The errors that an agent's tools throw; their messages are left out.
pub data BuyerError : Type 0 where
  no_items mixed_merchants variant_missing : BuyerError
  mandate_missing other_agent mandate_revoked other_merchant product_missing : BuyerError

-- The exceptions that the program throws, or that its callees throw through it.
pub data Exception : Type 0 where
  type_error : NotCanonical → Exception
  hex_error jwk_error base64_error syntax_error crypto_error provider_error property_of_null
        bind_error :
      Exception
  invalid_transition stale_transition : Exception
  sqlite_constraint : Constraint → Exception
  buyer_error : BuyerError → Exception
  route_error : ℕ → Text → Exception

pub data Result {ℓ} (A : Type ℓ) : Type ℓ where
  ok : A → Result A
  err : Exception → Result A

infixl 5 ◌>>=◌
abbrev pub ◌>>=◌ {ℓ κ} : {A : Type ℓ} {B : Type κ} → Result A → (A → Result B) → Result B
ok a >>= f = f a
err e >>= f = err e

pub Result-cases {ℓ} :
    {A : Type ℓ} (r : Result A) → ((a : A) × (r ≡ ok a)) ⊎ ((e : Exception) × (r ≡ err e))
Result-cases (ok a) = inl (a, refl)
Result-cases (err e) = inr (e, refl)
