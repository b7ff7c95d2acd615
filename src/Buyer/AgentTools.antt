-- ===== src/Buyer/AgentTools.antt =====
-- agents/scripted-brain/src/agent-tools.ts: buildCartDraft, signCart, and what requestPayment makes
-- of the facilitator's answers.
pub mod Cart
use hundi.Common.{
  ℕ, ◌+◌, ◌*◌, ◌==◌, Bool, true, false, not, ◌&&◌, ◌||◌, Option, none, some, List, [], ◌∷◌, map,
  Text, text, find, Result, ok, err, ◌>>=◌, BuyerError, buyer_error, ◌===◌, if◌then◌else◌,
}
use hundi.Core.Value.{Value, undefined, str, nat, arr, obj, end, field, of_values}
use hundi.Core.Crypto.{Crypto}
use hundi.Core.Signature.{sha256_hex}
use hundi.Core.Mandate.{IntentMandate, CartMandate, intent_signing_bytes, cart_signing_bytes}
use hundi.Facilitator.Db.{SettlementState}
use hundi.Buyer.{ProductVariant, Product, CartLineInput}

-- `CartItem`; a variant is its identifier and its label.
pub record DraftItem : Type 0 where
  pub sku : Text
  pub qty : ℕ
  pub unit_price_paise : ℕ
  pub variant : Option (Text × Text)

pub record CartDraft : Type 0 where
  pub merchant_id : Text
  pub items : List DraftItem
  pub total_paise : ℕ
  pub cart_id : Option Text

-- An empty text counts as none.
abbrev pub chosen : Option Text → Option Text
chosen none = none
chosen (some []) = none
chosen (some id) = some id

abbrev pub variants_of : Product → List ProductVariant
variants_of product = listed product.variants
  where
    listed : Option (List ProductVariant) → List ProductVariant
    listed none = []
    listed (some variants) = variants

abbrev pub variant_item : CartLineInput → Option ProductVariant → Result DraftItem
variant_item line none = err (buyer_error BuyerError.variant_missing)
variant_item line (some variant) = ok (record {
  sku = line.product.id;
  qty = line.qty;
  unit_price_paise = variant.price_paise;
  variant = some (variant.variant_id, variant.label);
})

abbrev pub priced : CartLineInput → Option Text → Result DraftItem
priced line none = ok (record {
  sku = line.product.id;
  qty = line.qty;
  unit_price_paise = line.product.price_paise;
  variant = none;
})
priced line (some id) =
    variant_item line (find (λ v. v.variant_id === id) (variants_of line.product))

-- A line of the draft.
unfoldable pub draft_item : (merchant_id : Text) → CartLineInput → Result DraftItem
draft_item merchant_id line =
    if line.product.merchant_id === merchant_id
    then priced line (chosen line.variant_id)
    else err (buyer_error BuyerError.mixed_merchants)

unfoldable pub draft_items : (merchant_id : Text) → List CartLineInput → Result (List DraftItem)
draft_items merchant_id [] = ok []
draft_items merchant_id (line ∷ lines) = draft_item merchant_id line >>= λ item.
    draft_items merchant_id lines >>= λ items. ok (item ∷ items)

-- `cartItems.reduce((sum, item) => sum + item.qty * item.unit_price_paise, sum)`
unfoldable pub draft_total : List DraftItem → ℕ → ℕ
draft_total [] sum = sum
draft_total (item ∷ items) sum = draft_total items (sum + item.qty * item.unit_price_paise)

unfoldable pub build_cart_draft : List CartLineInput → (cart_id : Option Text) → Result CartDraft
build_cart_draft [] cart_id = err (buyer_error BuyerError.no_items)
build_cart_draft (first ∷ rest) cart_id =
    draft_items first.product.merchant_id (first ∷ rest) >>= λ items. ok (record {
      merchant_id = first.product.merchant_id;
      items = items;
      total_paise = draft_total items 0;
      cart_id = chosen cart_id;
    })

-- The item as it is sent; an item without a variant has neither key.
unfoldable pub item_value : DraftItem → Value
item_value item = go item.variant
  where
    go : Option (Text × Text) → Value
    go none = obj (
        field (text "sku") (str item.sku) (
          field (text "qty") (nat item.qty)
            (field (text "unit_price_paise") (nat item.unit_price_paise) end)))
    go (some (variant_id, label)) = obj (
        field (text "sku") (str item.sku) (
          field (text "qty") (nat item.qty) (
            field (text "unit_price_paise") (nat item.unit_price_paise) (
              field (text "variant_id") (str variant_id)
                (field (text "variant_label") (str label) end)))))

abbrev or_random : (uuid : Text) → Option Text → Text
or_random uuid none = uuid
or_random uuid (some id) = id

-- The cart before it is signed.
unfoldable pub unsigned_cart : (intent_hash_hex uuid : Text) → CartDraft → CartMandate
unsigned_cart intent_hash_hex uuid draft = record {
  cart_id = str (or_random uuid draft.cart_id);
  merchant_id = str draft.merchant_id;
  items = arr (of_values (map item_value draft.items));
  total_paise = nat draft.total_paise;
  intent_hash_hex = str intent_hash_hex;
  agent_sig_hex = undefined;
}

-- `sign` is signPayload with the agent's key, and `uuid` what randomUUID gives.
unfoldable pub sign_cart :
    Crypto → (sign : List ℕ → Text) → (uuid : Text) → CartDraft → IntentMandate → Result CartMandate
sign_cart crypto sign uuid draft intent = intent_signing_bytes intent >>= λ intent_bytes.
    let unsigned = unsigned_cart (sha256_hex crypto intent_bytes) uuid draft in
    cart_signing_bytes unsigned >>= λ bytes.
    ok (record unsigned { agent_sig_hex = str (sign bytes) })

pub record SettlementResult : Type 0 where
  pub settlement_id : Text
  pub state : SettlementState
  pub reason : Option Text

-- `POLL_STOP_STATES`
abbrev pub stops : SettlementState → Bool
stops SettlementState.pending_approval = true
stops SettlementState.captured = true
stops SettlementState.failed = true
stops SettlementState.rejected = true
stops SettlementState.abandoned = true
stops _ = false

-- What POST /settlements answers.
pub data SettlementCreateBody : Type 0 where
  accepted :
      (settlement_id : Text) → SettlementState → (reason : Option Text) → SettlementCreateBody
  refused : (error : Text) → SettlementCreateBody

-- What GET /settlements/:id answers: the state and the reason, if the settlement is known.
abbrev pub SettlementGetBody : Type 0
SettlementGetBody = Option (SettlementState × Option Text)

abbrev or_timeout : Option Text → Text
or_timeout none = text "POLL_TIMEOUT"
or_timeout (some reason) = reason

-- The answers that came before the deadline, one after another.
unfoldable pub poll_settlement :
    (settlement_id : Text)
    → SettlementState
    → Option Text
    → List SettlementGetBody
    → SettlementResult
poll_settlement settlement_id last_state last_reason [] = record {
  settlement_id = settlement_id;
  state = last_state;
  reason = some (or_timeout last_reason);
}
poll_settlement settlement_id last_state last_reason (none ∷ bodies) =
    poll_settlement settlement_id last_state last_reason bodies
poll_settlement settlement_id last_state last_reason (some (state, reason) ∷ bodies) =
    let rest = poll_settlement settlement_id state reason bodies in
    if stops state
    then record { settlement_id = settlement_id; state = state; reason = reason }
    else rest

-- requestPayment, from the answer to POST /settlements on.
unfoldable pub read_settlement :
    (status : ℕ) → SettlementCreateBody → (polled : List SettlementGetBody) → SettlementResult
read_settlement status (refused error) polled = record {
  settlement_id = [];
  state =
      if (status == 409) && ((error === text "IN_FLIGHT") || (error === text "KEY_REUSED"))
      then SettlementState.created
      else SettlementState.rejected;
  reason = some error;
}
read_settlement status (accepted settlement_id state reason) polled =
    if stops state
    then record { settlement_id = settlement_id; state = state; reason = reason }
    else poll_settlement settlement_id SettlementState.created none polled
