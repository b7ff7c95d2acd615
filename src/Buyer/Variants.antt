-- ===== src/Buyer/Variants.antt =====
-- packages/mcp-server/src/tools/request-purchase.ts: variantHasAllValues, findVariantByText and
-- resolveVariant. The messages of the refusals are left out.
pub mod Chosen
use hundi.Common.{
  Bool, true, false, not, ◌&&◌, ◌||◌, Option, none, some, List, [], ◌∷◌, map, Text, any, find,
  filter, is_some, ◌===◌, if◌then◌else◌,
}
use hundi.Buyer.{Casing, ProductVariant, Product}
use hundi.Buyer.AgentTools.{variants_of}

-- The list without its first `t`, by indexOf and splice.
unfoldable pub take_out : Text → List Text → Option (List Text)
take_out t [] = none
take_out t (s ∷ remaining) =
    let rest = take_out t remaining in
    if s === t then some remaining else elim rest [ none ↦ none | some ts ↦ some (s ∷ ts) ]

unfoldable pub all_taken : (values : List Text) → (remaining : List Text) → Bool
all_taken [] remaining = true
all_taken (value ∷ values) remaining = elim (take_out value remaining) [
  | none ↦ false
  | some left ↦ all_taken values left
]

-- `s.startsWith(t)` and `s.includes(t)`
unfoldable pub starts_with : (t s : Text) → Bool
starts_with [] s = true
starts_with (c ∷ t) [] = false
starts_with (c ∷ t) (d ∷ s) = ((c ∷ []) === (d ∷ [])) && starts_with t s

unfoldable pub contains : (t s : Text) → Bool
contains t [] = starts_with t []
contains t (d ∷ s) = starts_with t (d ∷ s) || contains t s

pub data FreeTextMatch : Type 0 where
  found : ProductVariant → FreeTextMatch
  ambiguous unmatched : FreeTextMatch

pub data VariantRefusal : Type 0 where
  no_choices unknown_variant_id several_variants no_variant several_texts no_text : VariantRefusal

pub data VariantResolution : Type 0 where
  resolved : Option ProductVariant → VariantResolution
  unresolved : VariantRefusal → VariantResolution

pub record VariantArgs : Type 0 where
  pub size : Option Text
  pub color : Option Text
  pub variant : Option Text
  pub variant_id : Option Text

abbrev pub one_of : List ProductVariant → FreeTextMatch
one_of [] = unmatched
one_of (v ∷ []) = found v
one_of (v ∷ w ∷ vs) = ambiguous

abbrev pub of_match : (several none_left : VariantRefusal) → FreeTextMatch → VariantResolution
of_match several none_left (found variant) = resolved (some variant)
of_match several none_left ambiguous = unresolved several
of_match several none_left unmatched = unresolved none_left

-- `!!v`
abbrev pub given : Option Text → Bool
given none = false
given (some []) = false
given (some _) = true

module _ (casing : Casing) where
  abbrev pub folded : Text → Text
  folded s = casing.to_lower_case (casing.trim s)

  unfoldable pub variant_has_all_values : ProductVariant → (values : List Text) → Bool
  variant_has_all_values variant values =
      all_taken (map folded values) (map folded variant.option_values)

  abbrev pub is_exact : Text → ProductVariant → Bool
  is_exact n v =
      (casing.to_lower_case v.label === n)
      || any (λ val. casing.to_lower_case val === n) v.option_values

  abbrev pub is_near : Text → ProductVariant → Bool
  is_near n v =
      contains n (casing.to_lower_case v.label)
      || any (λ val. contains n (casing.to_lower_case val)) v.option_values

  abbrev pub exact_or_near : List ProductVariant → Text → Option ProductVariant → FreeTextMatch
  exact_or_near variants n (some v) = found v
  exact_or_near variants n none = one_of (filter (is_near n) variants)

  unfoldable pub find_variant_by_text : List ProductVariant → (needle : Text) → FreeTextMatch
  find_variant_by_text variants needle =
      let n = folded needle in exact_or_near variants n (find (is_exact n) variants)

  -- `!!v && v.trim().length > 0`
  abbrev pub is_requested : Option Text → Bool
  is_requested none = false
  is_requested (some v) = given (some v) && given (some (casing.trim v))

  abbrev pub requested : Option Text → List Text → List Text
  requested none vs = vs
  requested (some v) vs = if is_requested (some v) then v ∷ vs else vs

  -- `variant !== undefined && variant.trim().length > 0`
  abbrev pub has_text : Option Text → Bool
  has_text none = false
  has_text (some v) = given (some (casing.trim v))

  abbrev pub exact_values : VariantArgs → List Text
  exact_values args = requested args.size (requested args.color [])

  abbrev pub by_id : List ProductVariant → Text → VariantResolution
  by_id variants id = go (find (λ v. v.variant_id === id) variants)
    where
      go : Option ProductVariant → VariantResolution
      go none = unresolved unknown_variant_id
      go (some variant) = resolved (some variant)

  abbrev pub by_text : List ProductVariant → Option Text → VariantResolution
  by_text variants none = unresolved no_text
  by_text variants (some []) = unresolved no_text
  by_text variants (some needle) =
      of_match several_texts no_text (find_variant_by_text variants needle)

  -- Among the product's variants, with something requested.
  abbrev pub by_values : List ProductVariant → List Text → Option Text → VariantResolution
  by_values variants [] text = by_text variants text
  by_values variants (value ∷ values) text =
      of_match several_variants no_variant
        (one_of (filter (λ v. variant_has_all_values v (value ∷ values)) variants))

  abbrev pub by_args :
      List ProductVariant → (variant_id : Option Text) → VariantArgs → VariantResolution
  by_args variants none args = by_values variants (exact_values args) args.variant
  by_args variants (some []) args = by_values variants (exact_values args) args.variant
  by_args variants (some id) args = by_id variants id

  abbrev pub requested_something : VariantArgs → Bool
  requested_something args =
      is_some args.variant_id || (not_empty (exact_values args) || has_text args.variant)
    where
      not_empty : List Text → Bool
      not_empty [] = false
      not_empty (_ ∷ _) = true

  abbrev pub among : Bool → List ProductVariant → VariantArgs → VariantResolution
  among false variants args = resolved none
  among true [] args = unresolved no_choices
  among true (v ∷ vs) args = by_args (v ∷ vs) args.variant_id args

  unfoldable pub resolve_variant : Product → VariantArgs → VariantResolution
  resolve_variant product args = among (requested_something args) (variants_of product) args
