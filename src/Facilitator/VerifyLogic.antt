-- ===== src/Facilitator/VerifyLogic.antt =====
-- packages/facilitator/src/verify-logic.ts: the context of the gate, read from the database.
use hundi.Common.{
  ℕ, Bool, not, ◌&&◌, Option, none, some, Text, ◌===◌, any, find, is_some, if◌then◌else◌, Result,
  ok, ◌>>=◌,
}
use hundi.Core.Value.{get, is_undefined, text_of}
use hundi.Core.CanonicalJson.{canonical_json}
use hundi.Core.Crypto.{Crypto}
use hundi.Core.Mandate.{IntentMandate, CartMandate, intent_signing_bytes, cart_signing_bytes}
use hundi.Core.Signature.{Credential, sha256_hex}
use hundi.Core.Verify.{VerifyCtx, Prices, hash_pair}
use hundi.Facilitator.Db.{MandateRow, SettlementRow, MerchantRow, Db}
use hundi.Facilitator.StateMachine.{holds_cart}
use hundi.Facilitator.MandateRepo.{
  get_mandate_row, get_captured_spend, get_captured_spend_at_merchant,
}

abbrev credential_from : Option MandateRow → Option Credential
credential_from none = none
credential_from (some row) = some row.credential

abbrev is_revoked : Option MandateRow → Bool
is_revoked none = Bool.false
is_revoked (some row) = is_some row.revoked_at

-- A settlement other than the excluded one that holds the cart's hash.
abbrev is_duplicate : Text → Option Text → SettlementRow → Bool
is_duplicate hash none row = (row.mandate_cart_hash_hex === hash) && holds_cart row.state
is_duplicate hash (some id) row =
    (row.mandate_cart_hash_hex === hash) && (not (row.id === id) && holds_cart row.state)

abbrev prices_of : Option MerchantRow → Option Prices
prices_of none = none
prices_of (some row) = row.catalog_prices

module _ (crypto : Crypto) where
  unfoldable pub compute_mandate_cart_hash : IntentMandate → CartMandate → Result Text
  compute_mandate_cart_hash intent cart = do
    intent_bytes ← intent_signing_bytes intent
    cart_bytes ← cart_signing_bytes cart
    bytes ←
        canonical_json (hash_pair (sha256_hex crypto intent_bytes) (sha256_hex crypto cart_bytes))
    ok (sha256_hex crypto bytes)

  -- The context, once the hash is known.
  unfoldable pub verify_ctx :
      Db
      → IntentMandate
      → CartMandate
      → (now : ℕ) → (exclude : Option Text) → (hash : Text) → VerifyCtx
  verify_ctx db intent cart now exclude hash =
      let mandate_id = text_of intent.mandate_id in
      let merchant_id = text_of cart.merchant_id in
      let mandate_row = get_mandate_row db mandate_id in
      record {
        now = now;
        credential = credential_from mandate_row;
        revoked = is_revoked mandate_row;
        spent_paise = some (get_captured_spend db mandate_id);
        merchant_spent_paise =
            if not (is_undefined (get merchant_id intent.per_merchant_ceiling_paise))
            then some (get_captured_spend_at_merchant db mandate_id merchant_id)
            else none;
        catalog_prices = prices_of (find (λ m. m.merchant_id === merchant_id) db.merchants);
        duplicate_cart = any (is_duplicate hash exclude) db.settlements;
        clock_skew_sec = none;
      }

  unfoldable pub build_verify_ctx :
      Db
      → IntentMandate
      → CartMandate
      → (now : ℕ) → (exclude : Option Text) → Result (VerifyCtx × Text)
  build_verify_ctx db intent cart now exclude = do
    hash ← compute_mandate_cart_hash intent cart
    ok (verify_ctx db intent cart now exclude hash, hash)
