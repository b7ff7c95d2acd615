-- ===== src/Core/Verify/Meaning.antt =====
-- What each rejection code of packages/core/src/verify.ts stands for, said without the checks: the
-- condition whose failure the code reports.
use hundi.Common.{
  ℕ, suc, ◌+◌, ◌*◌, ◌≤◌, ◌≡◌, ◌⊎◌, true, false, List, [], ◌∷◌, Text, text, Some, All, Option, none,
  some, ℤ, pos, negsuc, ok,
}
use hundi.Core.Value.{Value, undefined, str, get, int_of, nat_of, text_of, items_of}
use hundi.Core.Crypto.{Crypto}
use hundi.Core.CartItem
use hundi.Core.Mandate.{IntentMandate, CartMandate, intent_signing_bytes, cart_signing_bytes}
use hundi.Core.Signature.{Credential, sha256_hex, verify_mandate_signature}
use hundi.Core.Verify.Checks.{RejectionCode}
use hundi.Core.Verify.Schema.{validate_intent_schema, validate_cart_schema}
use hundi.Core.Verify.{Prices, price_of, VerifyCtx, or_default, ed25519_envelope}

-- The price of the items together.
abbrev pub sum_of_items : List Value → ℕ
sum_of_items [] = 0
sum_of_items (item ∷ items) =
    nat_of (CartItem.qty item) * nat_of (CartItem.unit_price_paise item) + sum_of_items items

abbrev pub HasPrice : Prices → Value → Type 0
HasPrice prices item =
    price_of (text_of (CartItem.sku item)) prices ≡ some (nat_of (CartItem.unit_price_paise item))

abbrev pub MatchesCatalog : Option Prices → List Value → Type 0
MatchesCatalog none items = Unit
MatchesCatalog (some prices) items = All (HasPrice prices) items

abbrev pub IsListed : List Value → Text → Type 0
IsListed vs t = Some (λ v. v ≡ str t) vs

-- The clock is at most `skew` seconds past the expiry.
abbrev pub IsFresh : ℕ → ℤ → ℕ → Type 0
IsFresh now (pos e) skew = now ≤ e + skew
IsFresh now (negsuc e) skew = now + suc e ≤ skew

-- A mandate with no list of skus, or an empty one, is not pinned.
abbrev pub IsOnPurpose : List Value → List Value → Type 0
IsOnPurpose [] items = Unit
IsOnPurpose (sku ∷ skus) items =
    All (λ item. IsListed (sku ∷ skus) (text_of (CartItem.sku item))) items

-- A merchant with no sub-ceiling has no limit of its own.
abbrev pub IsWithinLimit : Value → ℕ → Type 0
IsWithinLimit limit spending = (limit ≡ undefined) ⊎ (spending ≤ nat_of limit)

module _ (crypto : Crypto) (intent : IntentMandate) (cart : CartMandate) (ctx : VerifyCtx) where
  -- The human's key, registered for the mandate, signed the intent.
  abbrev pub IsSignedByHuman : Type 0
  IsSignedByHuman =
      (key : Credential) × (bytes : List ℕ) × (ctx.credential ≡ some key)
      × (intent_signing_bytes intent ≡ ok bytes)
      × (verify_mandate_signature crypto bytes intent.sig key ≡ ok true)

  -- The cart names the hash of this intent.
  abbrev pub IsLinked : Type 0
  IsLinked =
      (bytes : List ℕ) × (intent_signing_bytes intent ≡ ok bytes)
      × (cart.intent_hash_hex ≡ str (sha256_hex crypto bytes))

  -- The agent's key, which the intent names, signed the cart.
  abbrev pub IsSignedByAgent : Type 0
  IsSignedByAgent =
      (bytes : List ℕ) × (cart_signing_bytes cart ≡ ok bytes)
      × (verify_mandate_signature crypto bytes (ed25519_envelope cart.agent_sig_hex)
            (Credential.ed25519 (text_of intent.agent_pubkey_hex))
          ≡ ok true)

  abbrev pub Holds : RejectionCode → Type 0
  Holds RejectionCode.schema_invalid =
      (validate_intent_schema intent ≡ none) × (validate_cart_schema cart ≡ none)
  Holds RejectionCode.mandate_unknown = (key : Credential) × (ctx.credential ≡ some key)
  Holds RejectionCode.sig_invalid_intent = IsSignedByHuman
  Holds RejectionCode.hash_link_mismatch = IsLinked
  Holds RejectionCode.sig_invalid_cart = IsSignedByAgent
  Holds RejectionCode.line_item_invalid =
      sum_of_items (items_of cart.items) ≡ nat_of cart.total_paise
  Holds RejectionCode.price_mismatch = MatchesCatalog ctx.catalog_prices (items_of cart.items)
  Holds RejectionCode.currency_mismatch = intent.currency ≡ str (text "INR")
  Holds RejectionCode.merchant_not_in_scope =
      IsListed (items_of intent.merchants) (text_of cart.merchant_id)
  Holds RejectionCode.mandate_expired =
      IsFresh ctx.now (int_of intent.expires_at) (or_default ctx.clock_skew_sec 60)
  Holds RejectionCode.mandate_revoked = ctx.revoked ≡ false
  Holds RejectionCode.goal_mismatch =
      IsOnPurpose (items_of intent.allowed_skus) (items_of cart.items)
  Holds RejectionCode.amount_exceeds_ceiling =
      or_default ctx.spent_paise 0 + nat_of cart.total_paise ≤ nat_of intent.ceiling_paise
  Holds RejectionCode.merchant_limit_exceeded =
      IsWithinLimit (get (text_of cart.merchant_id) intent.per_merchant_ceiling_paise)
        (or_default ctx.merchant_spent_paise 0 + nat_of cart.total_paise)
  Holds RejectionCode.duplicate_cart = ctx.duplicate_cart ≡ false
  Holds RejectionCode.allowance_reserved = Unit

-- The place of a code's check in the chain; `allowance_reserved` is never the gate's answer.
abbrev pub rank : RejectionCode → ℕ
rank RejectionCode.schema_invalid = 0
rank RejectionCode.mandate_unknown = 1
rank RejectionCode.sig_invalid_intent = 2
rank RejectionCode.hash_link_mismatch = 3
rank RejectionCode.sig_invalid_cart = 4
rank RejectionCode.line_item_invalid = 5
rank RejectionCode.price_mismatch = 6
rank RejectionCode.currency_mismatch = 7
rank RejectionCode.merchant_not_in_scope = 8
rank RejectionCode.mandate_expired = 9
rank RejectionCode.mandate_revoked = 10
rank RejectionCode.goal_mismatch = 11
rank RejectionCode.amount_exceeds_ceiling = 12
rank RejectionCode.merchant_limit_exceeded = 13
rank RejectionCode.duplicate_cart = 14
rank RejectionCode.allowance_reserved = 15
