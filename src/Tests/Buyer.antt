-- ===== src/Tests/Buyer.antt =====
-- An agent that buys tea, and the theorems about any purchase at that one.
use hundi.Tests.Fixtures.{bytes_of, toy_crypto, intent}
use hundi.Common.{ℕ, ◌≡◌, refl, true, false, none, some, List, [], ◌∷◌, Text, text}
use hundi.Core.Value.{str}
use hundi.Core.Mandate.{CartMandate, intent_payload}
use hundi.Core.Signature.{sha256_hex}
use hundi.Facilitator.Listed.{Listed}
use hundi.Buyer.{Casing, ProductVariant, Product, CartLineInput}
use hundi.Buyer.AgentTools.{
  CartDraft, SettlementCreateBody, SettlementGetBody, accepted, read_settlement, poll_settlement,
  unsigned_cart,
}
use hundi.Buyer.Variants.{VariantArgs}
use hundi.Buyer.Purchase.{MandateRecord, PurchaseArgs, captured_report, report_purchase}
use hundi.Facilitator.Db.{approved, settling, captured}
use hundi.Buyer.Purchase.Reports.{SaidCaptured, report_purchase-said}

-- Texts without capitals or spaces around them.
abbrev casing : Casing
casing = record { trim = λ s. s; to_lower_case = λ s. s }

abbrev variant : (id size color : Text) → ℕ → ProductVariant
variant id size color price = record {
  variant_id = id;
  label = size;
  option_values = size ∷ color ∷ [];
  price_paise = price;
  available = true;
}

abbrev small : ProductVariant
small = variant (text "v1") (text "small") (text "green") 150

abbrev large : ProductVariant
large = variant (text "v2") (text "large") (text "green") 250

abbrev tea : Product
tea = record {
  id = text "tea1";
  title = text "Tea";
  price_paise = 200;
  merchant_id = text "shop";
  variants = some (small ∷ large ∷ []);
}

-- The color comes first.
abbrev asks : VariantArgs
asks = record {
  size = some (text "green");
  color = some (text "large");
  variant = none;
  variant_id = none;
}

abbrev wallet : MandateRecord
wallet = record { mandate_id = text "m1"; intent = intent; revoked = false }

abbrev purchase : PurchaseArgs
purchase = record {
  merchant_id = text "shop";
  sku = text "tea1";
  qty = 2;
  mandate_id = text "m1";
  variants = asks;
  max_price_paise = some 500;
  idempotency_token = none;
}

abbrev line : CartLineInput
line = record { product = tea; qty = 2; variant_id = some (text "v2") }

abbrev draft : CartDraft
draft = record {
  merchant_id = text "shop";
  items =
      (record {
        sku = text "tea1";
        qty = 2;
        unit_price_paise = 250;
        variant = some (text "v2", text "large");
      })
      ∷ [];
  total_paise = 500;
  cart_id = none;
}

abbrev sign : List ℕ → Text
sign bytes = text "0c"

abbrev intent_bytes : List ℕ
intent_bytes = bytes_of (intent_payload intent)

abbrev signed_cart : CartMandate
signed_cart = record (unsigned_cart (sha256_hex toy_crypto intent_bytes) (text "c1") draft) {
  agent_sig_hex = str (text "0c");
}

abbrev answered : SettlementCreateBody
answered = accepted (text "s1") approved none

abbrev answers : List SettlementGetBody
answers = some (settling, none) ∷ none ∷ some (captured, none) ∷ []

paid :
    report_purchase draft (read_settlement 202 answered answers) ≡ captured_report (text "s1") 500
unfolding report_purchase read_settlement poll_settlement
paid = refl

report_purchase-said_example : SaidCaptured (text "s1") answered answers × (500 ≡ draft.total_paise)
report_purchase-said_example = report_purchase-said draft 202 answered answers (text "s1") 500 paid
