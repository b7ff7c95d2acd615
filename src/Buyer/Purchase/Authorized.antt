-- ===== src/Buyer/Purchase/Authorized.antt =====
-- What holds of every payment that packages/mcp-server/src/tools/request-purchase.ts asks for.
use hundi.Common.{ℕ, ◌*◌, ◌≡◌, ◌⊎◌, true, false, List, [], ◌∷◌, Text}
use hundi.Core.Crypto.{Crypto}
use hundi.Core.Value.{is_text, items_of}
use hundi.Core.Mandate.{IntentMandate}
use hundi.Core.Verify.{includes}
use hundi.Facilitator.Listed.{Listed}
use hundi.Buyer.{ProductVariant, Product}
use hundi.Buyer.AgentTools.{DraftItem, CartDraft, variants_of}
use hundi.Buyer.Purchase.{MandateRecord, PurchaseArgs, is_above}

-- A mandate that the facilitator lists, for this agent and this merchant.
pub record IsAuthorized (agent : Text) (mandates : List MandateRecord) (args : PurchaseArgs)
    (m : MandateRecord) : Type 0 where
  pub listed : Listed m mandates
  pub named : m.mandate_id ≡ args.mandate_id
  pub held : is_text (IntentMandate.agent_pubkey_hex m.intent) agent ≡ true
  pub unrevoked : m.revoked ≡ false
  pub in_scope : includes (items_of (IntentMandate.merchants m.intent)) args.merchant_id ≡ true

-- The price of the product, or of one of its variants.
abbrev pub IsListPrice : Product → ℕ → Type 0
IsListPrice product price =
    (price ≡ product.price_paise)
    ⊎ ((w : ProductVariant) × Listed w (variants_of product) × (price ≡ w.price_paise))

-- One line, at the price of the catalog, for the quantity that was asked for.
pub record IsPriced (args : PurchaseArgs) (product : Product) (cart : CartDraft) : Type 0 where
  pub item : DraftItem
  pub lines : cart.items ≡ item ∷ []
  pub listed : product.id ≡ args.sku
  pub sku : item.sku ≡ args.sku
  pub qty : item.qty ≡ args.qty
  pub unit_price : IsListPrice product item.unit_price_paise
  pub total : cart.total_paise ≡ args.qty * item.unit_price_paise
  pub merchant : cart.merchant_id ≡ product.merchant_id
  pub bounded : is_above cart.total_paise args.max_price_paise ≡ false
