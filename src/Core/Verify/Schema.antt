-- ===== src/Core/Verify/Schema.antt =====
-- The structural checks of packages/core/src/verify.ts: the message of the first that fails.
use hundi.Common.{
  ℕ, zero, suc, Bool, true, false, not, ◌&&◌, ◌||◌, List, [], ◌∷◌, ◌++◌, Text, text, digits, every,
  if◌then◌else◌, Option, none, some, pos, negsuc,
}
use hundi.Core.Value.{
  Value, undefined, num, str, arr, obj, int, neg_zero, Fields, end, field, get, is_undefined,
  is_text, items_of,
}
use hundi.Core.CanonicalJson.{is_safe}
use hundi.Core.CartItem
use hundi.Core.Mandate.{IntentMandate, CartMandate}

abbrev pub is_non_empty_string : Value → Bool
is_non_empty_string (str []) = false
is_non_empty_string (str (c ∷ s)) = true
is_non_empty_string _ = false

-- Number.isSafeInteger takes -0 for an integer.
abbrev pub is_safe_int : Value → Bool
is_safe_int (num (int z)) = is_safe z
is_safe_int (num neg_zero) = true
is_safe_int _ = false

-- `v <= 0` and `v < 1`, of an integer
abbrev pub at_most_zero : Value → Bool
at_most_zero (num (int (pos zero))) = true
at_most_zero (num (int (pos (suc n)))) = false
at_most_zero (num (int (negsuc n))) = true
at_most_zero (num neg_zero) = true
at_most_zero _ = false

-- `v < 0`, of an integer
abbrev pub below_zero : Value → Bool
below_zero (num (int (negsuc n))) = true
below_zero _ = false

abbrev is_string : Value → Bool
is_string (str s) = true
is_string _ = false

abbrev is_array : Value → Bool
is_array (arr xs) = true
is_array _ = false

abbrev is_empty : Value → Bool
is_empty v = elim (items_of v) [ [] ↦ true | _ ∷ _ ↦ false ]

-- An `if (bad) return message` before the rest.
infixr 2 ◌or◌
abbrev ◌or◌ : Option Text → Option Text → Option Text
none or next = next
some message or next = some message

abbrev reject_if : Bool → Text → Option Text
reject_if bad message = if bad then some message else none

unfoldable pub is_valid_sig_envelope : Value → Bool
is_valid_sig_envelope (obj fs) =
    let sig = obj fs in
    if is_text (get (text "type") sig) (text "ed25519")
    then is_non_empty_string (get (text "signature_hex") sig)
    else if is_text (get (text "type") sig) (text "webauthn-es256")
    then is_non_empty_string (get (text "clientDataJSON_b64u") sig)
      && is_non_empty_string (get (text "authenticatorData_b64u") sig)
      && is_non_empty_string (get (text "signature_b64u") sig)
    else false
is_valid_sig_envelope _ = false

-- The loop over `Object.entries(limits)`.
unfoldable pub validate_limits : Fields → Option Text
validate_limits end = none
validate_limits (field merchant limit limits) =
    reject_if (not (is_non_empty_string (str merchant)))
      (text "per_merchant_ceiling_paise keys must be merchant ids")
    or reject_if (not (is_safe_int limit) || below_zero limit) (
        text "per_merchant_ceiling_paise[" ++ (merchant ++ text "] must be a non-negative integer"))
    or validate_limits limits

unfoldable pub validate_merchant_limits : Value → Option Text
unfolding validate_limits
validate_merchant_limits undefined = none
validate_merchant_limits (obj limits) = validate_limits limits
validate_merchant_limits _ =
    some (text "per_merchant_ceiling_paise must be an object of merchant -> paise")

abbrev validate_cumulative_threshold : Value → Option Text
validate_cumulative_threshold threshold =
    reject_if
      (not (is_undefined threshold) && (not (is_safe_int threshold) || below_zero threshold))
      (text "cumulative_approval_threshold_paise must be a non-negative integer")

abbrev validate_allowed_skus : Value → Option Text
validate_allowed_skus skus =
    let message = text "allowed_skus must be a non-empty array of non-empty strings" in
    if is_undefined skus
    then none
    else reject_if (not (is_array skus) || is_empty skus) message
      or reject_if (not (every is_non_empty_string (items_of skus))) message

unfoldable pub validate_intent_schema : IntentMandate → Option Text
unfolding is_valid_sig_envelope validate_merchant_limits
validate_intent_schema intent =
    reject_if (not (is_non_empty_string mandate_id)) (text "mandateId must be a non-empty string")
    or reject_if (not (is_non_empty_string goal)) (text "goal must be a non-empty string")
    or reject_if (not (is_safe_int ceiling_paise) || at_most_zero ceiling_paise)
        (text "ceiling_paise must be a positive integer")
    or reject_if (not (is_safe_int approval_threshold_paise) || below_zero approval_threshold_paise)
        (text "approval_threshold_paise must be a non-negative integer")
    or reject_if (not (is_array merchants) || is_empty merchants)
        (text "merchants must be a non-empty array")
    or reject_if (not (every is_non_empty_string (items_of merchants)))
        (text "merchants must all be non-empty strings")
    or reject_if (not (is_safe_int expires_at))
        (text "expires_at must be an integer unix timestamp")
    or reject_if (not (is_non_empty_string agent_pubkey_hex))
        (text "agent_pubkey_hex must be a non-empty string")
    or validate_merchant_limits per_merchant_ceiling_paise
    or validate_cumulative_threshold cumulative_approval_threshold_paise
    or validate_allowed_skus allowed_skus
    or reject_if (not (is_valid_sig_envelope sig)) (text "sig is not a valid signature envelope")
  where
    open intent use {
      mandate_id, goal, ceiling_paise, approval_threshold_paise, merchants, expires_at,
      agent_pubkey_hex, per_merchant_ceiling_paise, cumulative_approval_threshold_paise,
      allowed_skus, sig,
    }

unfoldable pub validate_cart_item_schema : Value → ℕ → Option Text
validate_cart_item_schema item index =
    let at = text "items[" ++ digits index in
    reject_if (not (is_non_empty_string (CartItem.sku item)))
      (at ++ text "].sku must be a non-empty string")
    or reject_if (not (is_safe_int (CartItem.qty item)) || at_most_zero (CartItem.qty item))
        (at ++ text "].qty must be an integer >= 1")
    or reject_if
        (not (is_safe_int (CartItem.unit_price_paise item))
          || at_most_zero (CartItem.unit_price_paise item))
        (at ++ text "].unit_price_paise must be a positive integer")
    or reject_if
        (not (is_undefined (CartItem.variant_id item))
          && not (is_non_empty_string (CartItem.variant_id item)))
        (at ++ text "].variant_id must be a non-empty string when present")
    or reject_if
        (not (is_undefined (CartItem.variant_label item))
          && not (is_string (CartItem.variant_label item)))
        (at ++ text "].variant_label must be a string when present")

-- The loop over `cart.items` from the item at `index` on.
unfoldable pub validate_items : List Value → ℕ → Option Text
unfolding validate_cart_item_schema
validate_items [] index = none
validate_items (item ∷ items) index =
    validate_cart_item_schema item index or validate_items items (suc index)

unfoldable pub validate_cart_schema : CartMandate → Option Text
unfolding validate_items
validate_cart_schema cart =
    reject_if (not (is_non_empty_string cart.cart_id)) (text "cartId must be a non-empty string")
    or reject_if (not (is_non_empty_string cart.merchant_id))
        (text "merchant_id must be a non-empty string")
    or reject_if (not (is_array cart.items) || is_empty cart.items)
        (text "items must be a non-empty array")
    or validate_items (items_of cart.items) 0
    or reject_if (not (is_safe_int cart.total_paise) || below_zero cart.total_paise)
        (text "total_paise must be a non-negative integer")
    or reject_if (not (is_non_empty_string cart.intent_hash_hex))
        (text "intent_hash_hex must be a non-empty string")
    or reject_if (not (is_non_empty_string cart.agent_sig_hex))
        (text "agent_sig_hex must be a non-empty string")
