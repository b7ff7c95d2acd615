-- ===== src/Core/CartItem.antt =====
-- The fields of an item of a cart (packages/core/src/mandate.ts): what JSON.parse gave, unchecked.
use hundi.Common.{text}
use hundi.Core.Value.{Value, get}

abbrev pub sku : Value → Value
sku item = get (text "sku") item

abbrev pub qty : Value → Value
qty item = get (text "qty") item

abbrev pub unit_price_paise : Value → Value
unit_price_paise item = get (text "unit_price_paise") item

abbrev pub variant_id : Value → Value
variant_id item = get (text "variant_id") item

abbrev pub variant_label : Value → Value
variant_label item = get (text "variant_label") item
