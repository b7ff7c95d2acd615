-- ===== src/Core/Verify.antt =====
-- packages/core/src/verify.ts: the mandate-chain gate. A sum of amounts is exact: a partial sum past
-- 2^53 is rounded by the program, but stays above every total that passes the schema.
pub mod Checks
pub mod Schema
pub mod Meaning
pub mod Explains
pub mod Purchase
pub mod Explained
pub mod Passes
use hundi.Common.{
  ℕ, suc, ◌+◌, ◌*◌, ◌≤◌, Bool, true, false, not, ◌&&◌, ◌||◌, List, [], ◌∷◌, ◌++◌, Text, text,
  digits, join, map, any, ltb, leb, ◌==◌, ◌===◌, if◌then◌else◌, Option, none, some, ℤ, pos, negsuc,
}
use hundi.Core.Value.{
  Value, undefined, str, obj, Fields, end, field, get, is_undefined, is_text, int_of, nat_of,
  text_of, items_of,
}
use hundi.Core.CanonicalJson.{canonical_json}
use hundi.Core.Crypto.{Crypto}
use hundi.Core.CartItem
use hundi.Core.Mandate.{IntentMandate, CartMandate, intent_signing_bytes, cart_signing_bytes}
use hundi.Core.Signature.{Credential, sha256_hex, verify_mandate_signature}
use Checks.{
  RejectionCode, Gate, passed, rejected, ◌>>=◌, ◌>>◌, require, require_none, require_some, call,
}
use Schema.{validate_intent_schema, validate_cart_schema}

-- `catalogPrices`, a map from sku to price
abbrev pub Prices : Type 0
Prices = List (Text × ℕ)

unfoldable pub price_of : Text → Prices → Option ℕ
price_of k [] = none
price_of k ((j, p) ∷ ps) = if j === k then some p else price_of k ps

-- An optional field that the caller leaves out is `none`.
pub record VerifyCtx : Type 0 where
  pub now : ℕ
  pub credential : Option Credential
  pub revoked : Bool
  pub spent_paise : Option ℕ
  pub merchant_spent_paise : Option ℕ
  pub catalog_prices : Option Prices
  pub duplicate_cart : Bool
  pub clock_skew_sec : Option ℕ

pub record Pass : Type 0 where
  pub needs_approval : Bool
  pub mandate_cart_hash_hex : Text

abbrev pub or_default : Option ℕ → ℕ → ℕ
or_default none d = d
or_default (some n) d = n

-- The `reduce` over the items.
unfoldable pub recomputed_total : List Value → ℕ → ℕ
recomputed_total [] sum = sum
recomputed_total (item ∷ items) sum =
    recomputed_total items
      (sum + nat_of (CartItem.qty item) * nat_of (CartItem.unit_price_paise item))

abbrev price_matches : Option ℕ → Value → Bool
price_matches none item = false
price_matches (some price) item = price == nat_of (CartItem.unit_price_paise item)

unfoldable pub check_prices : Prices → List Value → Gate (Unit {0})
unfolding price_of
check_prices prices [] = passed tt
check_prices prices (item ∷ items) = do
  require (price_matches (price_of (text_of (CartItem.sku item)) prices) item)
      RejectionCode.price_mismatch
      (some (text "sku " ++ (text_of (CartItem.sku item) ++ text " price does not match catalog")))
  check_prices prices items

abbrev check_catalog : Option Prices → List Value → Gate (Unit {0})
check_catalog none items = passed tt
check_catalog (some prices) items = check_prices prices items

-- `xs.includes(x)`, and `new Set(xs).has(x)`, for a text x
unfoldable pub includes : List Value → Text → Bool
includes [] x = false
includes (v ∷ vs) x = is_text v x || includes vs x

-- `now > expires_at + skew`
unfoldable pub is_expired : ℕ → ℤ → ℕ → Bool
is_expired now (pos e) skew = ltb (e + skew) now
is_expired now (negsuc e) skew = ltb skew (now + suc e)

unfoldable pub check_skus : List Value → List Value → Gate (Unit {0})
unfolding includes
check_skus allowed [] = passed tt
check_skus allowed (item ∷ items) = do
  require (includes allowed (text_of (CartItem.sku item))) RejectionCode.goal_mismatch (
      some (
        text "sku "
        ++ (text_of (CartItem.sku item)
            ++ (text " is not in the mandate's allowed set ["
                ++ (join (text ", ") (map text_of allowed) ++ text "]")))))
  check_skus allowed items

-- Only a list that has an entry restricts.
unfoldable pub check_purpose : List Value → List Value → Gate (Unit {0})
unfolding check_skus
check_purpose [] items = passed tt
check_purpose (sku ∷ skus) items = check_skus (sku ∷ skus) items

abbrev ceiling_detail : (total spent ceiling : ℕ) → Text
ceiling_detail total spent ceiling =
    text "cart "
    ++ (digits total
        ++ (text " + already-spent "
            ++ (digits spent ++ (text " exceeds ceiling " ++ digits ceiling))))

abbrev limit_detail : (total spent : ℕ) (merchant : Text) (limit : ℕ) → Text
limit_detail total spent merchant limit =
    text "cart "
    ++ (digits total
        ++ (text " + already-spent-at-merchant "
            ++ (digits spent
                ++ (text " exceeds the " ++ (merchant ++ (text " limit " ++ digits limit))))))

-- The sub-ceiling of the cart's merchant, if the human set one.
unfoldable pub check_merchant_limit : Value → (spent total : ℕ) → Text → Gate (Unit {0})
check_merchant_limit limit spent total merchant =
    if is_undefined limit
    then passed tt
    else require (leb (spent + total) (nat_of limit)) RejectionCode.merchant_limit_exceeded
        (some (limit_detail total spent merchant (nat_of limit)))

-- `cart_sig` and `agentCredential`: the cart is signed by the key that the intent names.
abbrev pub ed25519_envelope : Value → Value
ed25519_envelope signature_hex =
    obj
      (field (text "type") (str (text "ed25519")) (field (text "signature_hex") signature_hex end))

-- `{ intent_hash, cart_hash }`
abbrev pub hash_pair : (intent_hash cart_hash : Text) → Value
hash_pair intent_hash cart_hash =
    obj
      (field (text "intent_hash") (str intent_hash) (field (text "cart_hash") (str cart_hash) end))

unfoldable pub crosses_cumulative : Value → ℕ → Bool
crosses_cumulative threshold spent = not (is_undefined threshold) && ltb (nat_of threshold) spent

-- What is bought, where, when and for how much: the checks from the line items on.
unfoldable pub check_purchase : IntentMandate → CartMandate → VerifyCtx → Gate (Unit {0})
check_purchase intent cart ctx = do
  let items = items_of cart.items
  let total = nat_of cart.total_paise
  require (recomputed_total items 0 == total) RejectionCode.line_item_invalid
      (some (text "total_paise does not match sum(qty * unit_price_paise)"))
  check_catalog ctx.catalog_prices items
  require (is_text intent.currency (text "INR")) RejectionCode.currency_mismatch none
  require (includes (items_of intent.merchants) (text_of cart.merchant_id))
      RejectionCode.merchant_not_in_scope none
  require (not (is_expired ctx.now (int_of intent.expires_at) (or_default ctx.clock_skew_sec 60)))
      RejectionCode.mandate_expired none
  require (not ctx.revoked) RejectionCode.mandate_revoked none
  check_purpose (items_of intent.allowed_skus) items
  let spent = or_default ctx.spent_paise 0
  require (leb (spent + total) (nat_of intent.ceiling_paise)) RejectionCode.amount_exceeds_ceiling
      (some (ceiling_detail total spent (nat_of intent.ceiling_paise)))
  check_merchant_limit (get (text_of cart.merchant_id) intent.per_merchant_ceiling_paise)
      (or_default ctx.merchant_spent_paise 0) total (text_of cart.merchant_id)
  require (not ctx.duplicate_cart) RejectionCode.duplicate_cart none

unfoldable pub needs_approval : IntentMandate → CartMandate → VerifyCtx → Bool
unfolding crosses_cumulative
needs_approval intent cart ctx =
    let total = nat_of cart.total_paise in
    ltb (nat_of intent.approval_threshold_paise) total
    || crosses_cumulative intent.cumulative_approval_threshold_paise
        (or_default ctx.spent_paise 0 + total)

module _ (crypto : Crypto) where
  -- Who signed what: the checks up to the cart's signature. The result is the hash of the intent
  -- and the bytes of the cart.
  unfoldable pub check_signatures :
      IntentMandate → CartMandate → Option Credential → Gate (Text × List ℕ)
  check_signatures intent cart credential = do
    key ←
        require_some credential RejectionCode.mandate_unknown
          (some (text "no credential registered for this agent key"))
    intent_bytes ← call (intent_signing_bytes intent)
    intent_ok ← call (verify_mandate_signature crypto intent_bytes intent.sig key)
    require intent_ok RejectionCode.sig_invalid_intent none
    let intent_hash_hex = sha256_hex crypto intent_bytes
    require (is_text cart.intent_hash_hex intent_hash_hex) RejectionCode.hash_link_mismatch none
    cart_bytes ← call (cart_signing_bytes cart)
    cart_ok ← call (
        verify_mandate_signature crypto cart_bytes (ed25519_envelope cart.agent_sig_hex)
          (Credential.ed25519 (text_of intent.agent_pubkey_hex)))
    require cart_ok RejectionCode.sig_invalid_cart none
    passed (intent_hash_hex, cart_bytes)

  unfoldable pub verify_chain : IntentMandate → CartMandate → VerifyCtx → Gate Pass
  verify_chain intent cart ctx = do
    require_none (validate_intent_schema intent) RejectionCode.schema_invalid
    require_none (validate_cart_schema cart) RejectionCode.schema_invalid
    (intent_hash_hex, cart_bytes) ← check_signatures intent cart ctx.credential
    check_purchase intent cart ctx
    let cart_hash_hex = sha256_hex crypto cart_bytes
    bytes ← call (canonical_json (hash_pair intent_hash_hex cart_hash_hex))
    passed (record {
      needs_approval = needs_approval intent cart ctx;
      mandate_cart_hash_hex = sha256_hex crypto bytes;
    })
