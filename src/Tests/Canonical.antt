-- ===== src/Tests/Canonical.antt =====
-- The theorems about packages/core/src/canonical-json.ts at concrete inputs.
use hundi.Common.{◌≡◌, arith, ◌↔◌, text}
use hundi.Core.Value.{Value, obj, field, end, nat, str}
use hundi.Core.CanonicalJson.{canonical_json}
use hundi.Core.CanonicalJson.Total.{IsCanonical, Returns, Returns-canonical_json}
use hundi.Core.CanonicalJson.KeyOrder.{SameValue, SameFields, canonical_json-SameValue}

abbrev ab : Value
ab = obj (field (text "a") (nat 1) (field (text "b") (str (text "x")) end))

abbrev ba : Value
ba = obj (field (text "b") (str (text "x")) (field (text "a") (nat 1) end))

Returns-canonical_json_example : Returns (canonical_json ab) ↔ IsCanonical ab
Returns-canonical_json_example = Returns-canonical_json ab

swapped : SameValue ab ba
swapped = SameValue.same_obj (SameFields.swap_fields (λ e. ground (arith, e)))

canonical_json-SameValue_example : canonical_json ab ≡ canonical_json ba
canonical_json-SameValue_example = canonical_json-SameValue ab ba swapped
