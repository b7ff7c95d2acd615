-- ===== src/Core/Verify/Checks.antt =====
-- The outcome of a chain of checks (packages/core/src/verify.ts): the first failure is reported,
-- and an exception of a callee ends the chain.
use hundi.Common.{
  ◌≡◌, refl, Bool, true, false, Option, none, some, Text, text, Result, ok, err, Exception,
}

pub data RejectionCode : Type 0 where
  schema_invalid mandate_unknown sig_invalid_intent hash_link_mismatch : RejectionCode
  sig_invalid_cart line_item_invalid price_mismatch currency_mismatch : RejectionCode
  merchant_not_in_scope mandate_expired mandate_revoked amount_exceeds_ceiling : RejectionCode
  merchant_limit_exceeded goal_mismatch allowance_reserved duplicate_cart : RejectionCode

-- The code as the program spells it.
abbrev pub code_text : RejectionCode → Text
code_text schema_invalid = text "SCHEMA_INVALID"
code_text mandate_unknown = text "MANDATE_UNKNOWN"
code_text sig_invalid_intent = text "SIG_INVALID_INTENT"
code_text hash_link_mismatch = text "HASH_LINK_MISMATCH"
code_text sig_invalid_cart = text "SIG_INVALID_CART"
code_text line_item_invalid = text "LINE_ITEM_INVALID"
code_text price_mismatch = text "PRICE_MISMATCH"
code_text currency_mismatch = text "CURRENCY_MISMATCH"
code_text merchant_not_in_scope = text "MERCHANT_NOT_IN_SCOPE"
code_text mandate_expired = text "MANDATE_EXPIRED"
code_text mandate_revoked = text "MANDATE_REVOKED"
code_text amount_exceeds_ceiling = text "AMOUNT_EXCEEDS_CEILING"
code_text merchant_limit_exceeded = text "MERCHANT_LIMIT_EXCEEDED"
code_text goal_mismatch = text "GOAL_MISMATCH"
code_text allowance_reserved = text "ALLOWANCE_RESERVED"
code_text duplicate_cart = text "DUPLICATE_CART"

pub data Gate {ℓ} (A : Type ℓ) : Type ℓ where
  passed : A → Gate A
  rejected : RejectionCode → (detail : Option Text) → Gate A
  threw : Exception → Gate A

infixl 5 ◌>>=◌ ◌>>◌
abbrev pub ◌>>=◌ {ℓ κ} : {A : Type ℓ} {B : Type κ} → Gate A → (A → Gate B) → Gate B
passed a >>= f = f a
rejected code detail >>= f = rejected code detail
threw e >>= f = threw e

abbrev pub ◌>>◌ {ℓ} : {B : Type ℓ} → Gate (Unit {0}) → Gate B → Gate B
m >> k = m >>= λ _. k

-- `if (!good) return fail(code, detail)`
abbrev pub require : Bool → RejectionCode → Option Text → Gate (Unit {0})
require true code detail = passed tt
require false code detail = rejected code detail

-- A call that may throw.
abbrev pub call {ℓ} : {A : Type ℓ} → Result A → Gate A
call (ok a) = passed a
call (err e) = threw e

-- `if (err) return fail('SCHEMA_INVALID', err)`
abbrev pub require_none : Option Text → RejectionCode → Gate (Unit {0})
require_none none code = passed tt
require_none (some message) code = rejected code (some message)

abbrev pub require_some {ℓ} : {A : Type ℓ} → Option A → RejectionCode → Option Text → Gate A
require_some (some a) code detail = passed a
require_some none code detail = rejected code detail

-- Inversion of a chain that passed.
pub >>=-eq-passed {ℓ κ} :
    {A : Type ℓ} {B : Type κ} (m : Gate A) (f : A → Gate B) {b : B}
    → (m >>= f) ≡ passed b
    → (a : A) × (m ≡ passed a) × (f a ≡ passed b)
>>=-eq-passed (passed a) f h = (a, refl, h)
>>=-eq-passed (rejected code detail) f h = cc
>>=-eq-passed (threw e) f h = cc

pub call-eq-passed {ℓ} : {A : Type ℓ} (r : Result A) {a : A} → call r ≡ passed a → r ≡ ok a
call-eq-passed (ok a) h = cc
call-eq-passed (err e) h = cc
