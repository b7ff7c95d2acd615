-- ===== src/Buyer/Variants/Chosen.antt =====
-- The variant that packages/mcp-server/src/tools/request-purchase.ts buys is the one that was asked
-- for.
use hundi.Common.{ℕ, ◌≤◌, ◌≡◌, true, some, List, map, Text, count, ◌===◌}
use hundi.Facilitator.Listed.{Listed}
use hundi.Buyer.{Casing, ProductVariant}
use hundi.Buyer.Variants.{
  VariantArgs, folded, variant_has_all_values, is_exact, is_near, exact_values,
}

abbrev pub occurrences : Text → List Text → ℕ
occurrences t ts = count (λ s. s === t) ts

-- What the one of the product's variants that is bought has to do with the request.
pub data IsAskedFor (casing : Casing) (variants : List ProductVariant) (args : VariantArgs)
    (v : ProductVariant) : Type 0 where
  -- It has the identifier.
  identified : args.variant_id ≡ some v.variant_id → IsAskedFor casing variants args v
  -- It has each of the values that are asked for, as often as it is asked for, and no other variant
  -- has them.
  on_axes :
      ((t : Text)
        → occurrences t (map (folded casing) (exact_values casing args))
          ≤ occurrences t (map (folded casing) v.option_values))
      → ((w : ProductVariant)
          → Listed w variants
          → variant_has_all_values casing w (exact_values casing args) ≡ true
          → w ≡ v)
      → IsAskedFor casing variants args v
  -- It has the words as a label or a value.
  exactly :
      (needle : Text)
      → args.variant ≡ some needle
      → is_exact casing (folded casing needle) v ≡ true
      → IsAskedFor casing variants args v
  -- It has the words within one, and no other variant has.
  nearly :
      (needle : Text)
      → args.variant ≡ some needle
      → is_near casing (folded casing needle) v ≡ true
      → ((w : ProductVariant)
          → Listed w variants
          → is_near casing (folded casing needle) w ≡ true
          → w ≡ v)
      → IsAskedFor casing variants args v

module _ (casing : Casing) (variants : List ProductVariant) (args : VariantArgs)
    (v : ProductVariant) where
  abbrev Chosen : Type 0
  Chosen = Listed v variants × IsAskedFor casing variants args v
