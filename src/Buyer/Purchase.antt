-- ===== src/Buyer/Purchase.antt =====
-- packages/mcp-server/src/tools/request-purchase.ts: what the tool decides before it asks for a
-- payment, and what it reports after.
pub mod Authorized
pub mod Reports
use hundi.Common.{
  ℕ, ltb, Bool, true, false, not, ◌||◌, Option, none, some, List, [], ◌∷◌, Text, text, any, find,
  leb, Result, ok, err, ◌>>=◌, BuyerError, buyer_error, ◌===◌, if◌then◌else◌,
}
use hundi.Core.Value.{Value, str, obj, end, field, is_text, items_of}
use hundi.Core.Crypto.{Crypto}
use hundi.Core.CanonicalJson.{canonical_json}
use hundi.Core.Signature.{sha256_hex}
use hundi.Core.Mandate.{IntentMandate}
use hundi.Core.Verify.{includes}
use hundi.Facilitator.Db.{SettlementState}
use hundi.Buyer.{Casing, ProductVariant, Product, CartLineInput}
use hundi.Buyer.AgentTools.{CartDraft, build_cart_draft, SettlementResult}
use hundi.Buyer.Variants.{
  VariantArgs, VariantRefusal, VariantResolution, resolved, unresolved, resolve_variant,
}

-- What the tool reads of a `MandateRecord`.
pub record MandateRecord : Type 0 where
  pub mandate_id : Text
  pub intent : IntentMandate
  pub revoked : Bool

abbrev check_record :
    (agent_public_key_hex merchant_id : Text) → Option MandateRecord → Result MandateRecord
check_record agent_public_key_hex merchant_id none = err (buyer_error BuyerError.mandate_missing)
check_record agent_public_key_hex merchant_id (some record_) =
    if not (is_text (IntentMandate.agent_pubkey_hex record_.intent) agent_public_key_hex)
    then err (buyer_error BuyerError.other_agent)
    else if record_.revoked
    then err (buyer_error BuyerError.mandate_revoked)
    else if not (includes (items_of (IntentMandate.merchants record_.intent)) merchant_id)
    then err (buyer_error BuyerError.other_merchant)
    else ok record_

unfoldable pub find_authorized_mandate :
    List MandateRecord → (mandate_id agent_public_key_hex merchant_id : Text) → Result MandateRecord
find_authorized_mandate mandates mandate_id agent_public_key_hex merchant_id =
    check_record agent_public_key_hex merchant_id (find (λ m. m.mandate_id === mandate_id) mandates)

abbrev check_product : Option Product → Result Product
check_product none = err (buyer_error BuyerError.product_missing)
check_product (some product) = ok product

unfoldable pub find_product : List Product → (sku : Text) → Result Product
find_product products sku = check_product (find (λ p. p.id === sku) products)

pub record PurchaseArgs : Type 0 where
  pub merchant_id : Text
  pub sku : Text
  pub qty : ℕ
  pub mandate_id : Text
  pub variants : VariantArgs
  pub max_price_paise : Option ℕ
  pub idempotency_token : Option Text

-- What the tool does next: it reports a rejection, or asks for a payment.
pub data PurchaseDecision : Type 0 where
  variant_not_found : VariantRefusal → PurchaseDecision
  max_price_exceeded : CartDraft → PurchaseDecision
  request_payment :
      MandateRecord
      → Product
      → (variant : Option ProductVariant) → CartDraft
      → (idempotency_key : Option Text) → PurchaseDecision

-- `sha256Hex(canonicalJson({ [name]: token }))`, for a token that is not empty.
abbrev pub token_hash : Crypto → (name : Text) → Option Text → Result (Option Text)
token_hash crypto name none = ok none
token_hash crypto name (some []) = ok none
token_hash crypto name (some token) = canonical_json (obj (field name (str token) end)) >>= λ bytes.
    ok (some (sha256_hex crypto bytes))

abbrev pub variant_id_of : Option ProductVariant → Option Text
variant_id_of none = none
variant_id_of (some variant) = some variant.variant_id

abbrev pub is_above : (total : ℕ) → (max_price_paise : Option ℕ) → Bool
is_above total none = false
is_above total (some max) = ltb max total

module _ (crypto : Crypto) where
  -- From the variant on.
  abbrev pub with_variant :
      PurchaseArgs → MandateRecord → Product → VariantResolution → Result PurchaseDecision
  with_variant args record_ product (unresolved refusal) = ok (variant_not_found refusal)
  with_variant args record_ product (resolved variant) =
      token_hash crypto (text "purchase_cart") args.idempotency_token >>= λ cart_id.
      token_hash crypto (text "purchase_idem") args.idempotency_token >>= λ idempotency_key.
      build_cart_draft
        ((record { product = product; qty = args.qty; variant_id = variant_id_of variant }) ∷ [])
        cart_id
      >>= λ cart. ok (
          if is_above cart.total_paise args.max_price_paise
          then max_price_exceeded cart
          else request_payment record_ product variant cart idempotency_key)

  -- The tool up to requestPayment: `mandates` and `products` are what the facilitator lists.
  unfoldable pub decide_purchase :
      Casing
      → (agent_public_key_hex : Text) → List MandateRecord
      → List Product
      → PurchaseArgs
      → Result PurchaseDecision
  decide_purchase casing agent_public_key_hex mandates products args =
      find_authorized_mandate mandates args.mandate_id agent_public_key_hex args.merchant_id
      >>= λ record_. find_product products args.sku >>= λ product.
          with_variant args record_ product (resolve_variant casing product args.variants)

-- What the tool reports in the end; the messages are left out.
pub data Report : Type 0 where
  captured_report : (settlement_id : Text) → (amount_paise : ℕ) → Report
  pending_report : (settlement_id : Text) → (amount_paise : ℕ) → Report
  ambiguous_report : (reason : Text) → Report
  in_flight_report terminal_report :
      (settlement_id : Text) → SettlementState → (reason : Option Text) → Report

abbrev pub is_contested : Option Text → Bool
is_contested none = false
is_contested (some reason) = (reason === text "IN_FLIGHT") || (reason === text "KEY_REUSED")

abbrev reason_text : Option Text → Text
reason_text none = []
reason_text (some reason) = reason

-- A state that is neither captured nor waits for a human.
abbrev pub uncaptured : SettlementResult → Report
uncaptured result =
    if is_contested result.reason
    then ambiguous_report (reason_text result.reason)
    else by_state result.state
  where
    by_state : SettlementState → Report
    by_state SettlementState.rejected =
        terminal_report result.settlement_id SettlementState.rejected result.reason
    by_state SettlementState.failed =
        terminal_report result.settlement_id SettlementState.failed result.reason
    by_state SettlementState.abandoned =
        terminal_report result.settlement_id SettlementState.abandoned result.reason
    by_state state = in_flight_report result.settlement_id state result.reason

-- After requestPayment.
unfoldable pub report_purchase : CartDraft → SettlementResult → Report
report_purchase cart result = by_state result.state
  where
    by_state : SettlementState → Report
    by_state SettlementState.captured = captured_report result.settlement_id cart.total_paise
    by_state SettlementState.pending_approval = pending_report result.settlement_id cart.total_paise
    by_state _ = uncaptured result
