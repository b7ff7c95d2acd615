-- ===== src/Core/Mandate.antt =====
-- packages/core/src/mandate.ts. What stands in a field at run time is whatever JSON.parse gave, so
-- each field is a value; core/verify.ts checks them.
use hundi.Common.{ℕ, Bool, List, map, Text, text, Result, not, if◌then◌else◌}
use hundi.Core.Value.{
  Value, arr, obj, Fields, end, field, truthy, is_undefined, items_of, of_values,
}
use hundi.Core.CanonicalJson.{canonical_json}
use hundi.Core.CartItem

pub record IntentMandate : Type 0 where
  pub mandate_id : Value
  pub goal : Value
  pub ceiling_paise : Value
  pub approval_threshold_paise : Value
  pub currency : Value
  pub merchants : Value
  pub expires_at : Value
  pub agent_pubkey_hex : Value
  -- optional: `undefined` if absent
  pub per_merchant_ceiling_paise : Value
  pub cumulative_approval_threshold_paise : Value
  pub allowed_skus : Value
  pub sig : Value

pub record CartMandate : Type 0 where
  pub cart_id : Value
  pub merchant_id : Value
  pub items : Value
  pub total_paise : Value
  pub intent_hash_hex : Value
  pub agent_sig_hex : Value

-- `...(present ? { k: v } : {})` at the end of an object literal
abbrev pub spread : Bool → Text → Value → Fields → Fields
spread present k v fs = if present then field k v fs else fs

-- Everything in the intent but `sig`.
unfoldable pub intent_payload : IntentMandate → Value
intent_payload intent = obj (
    field (text "mandateId") intent.mandate_id (
      field (text "goal") intent.goal (
        field (text "ceiling_paise") intent.ceiling_paise (
          field (text "approval_threshold_paise") intent.approval_threshold_paise (
            field (text "currency") intent.currency (
              field (text "merchants") intent.merchants (
                field (text "expires_at") intent.expires_at (
                  field (text "agent_pubkey_hex") intent.agent_pubkey_hex (
                    spread (truthy intent.per_merchant_ceiling_paise)
                      (text "per_merchant_ceiling_paise") intent.per_merchant_ceiling_paise
                      (spread (not (is_undefined intent.cumulative_approval_threshold_paise))
                        (text "cumulative_approval_threshold_paise")
                        intent.cumulative_approval_threshold_paise
                        (spread (truthy intent.allowed_skus) (text "allowed_skus")
                          intent.allowed_skus end)))))))))))

unfoldable pub intent_signing_bytes : IntentMandate → Result (List ℕ)
unfolding intent_payload
intent_signing_bytes intent = canonical_json (intent_payload intent)

unfoldable pub item_payload : Value → Value
item_payload item = obj (
    field (text "sku") (CartItem.sku item) (
      field (text "qty") (CartItem.qty item) (
        field (text "unit_price_paise") (CartItem.unit_price_paise item) (
          spread (truthy (CartItem.variant_id item)) (text "variant_id") (CartItem.variant_id item)
            end))))

-- Everything in the cart but `agent_sig_hex`; `variant_label` of an item is not covered.
unfoldable pub cart_payload : CartMandate → Value
unfolding item_payload
cart_payload cart = obj (
    field (text "cartId") cart.cart_id (
      field (text "merchant_id") cart.merchant_id (
        field (text "items") (arr (of_values (map item_payload (items_of cart.items)))) (
          field (text "total_paise") cart.total_paise
            (field (text "intent_hash_hex") cart.intent_hash_hex end)))))

unfoldable pub cart_signing_bytes : CartMandate → Result (List ℕ)
unfolding cart_payload
cart_signing_bytes cart = canonical_json (cart_payload cart)
