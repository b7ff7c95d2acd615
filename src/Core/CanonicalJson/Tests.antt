-- ===== src/Core/CanonicalJson/Tests.antt =====
-- Runs of `canonicalJson`, those of src/__tests__/canonical-json.test.ts among them.
use hundi.Common.{◌≡◌, refl, [], ◌∷◌, text, negsuc, ok, err, type_error, NotCanonical, true}
use hundi.Core.Platform.{quote, utf8}
use hundi.Core.Value.{
  int, neg_zero, Value, undefined, null, bool, num, str, arr, obj, nil, cons, end, field,
}
use hundi.Core.CanonicalJson.{encode, canonical_json}

abbrev nested : Value
nested = obj (
    field (text "b") (num (int (negsuc 11)))
      (field (text "a") (arr (cons (bool true) (cons null (cons (str (text "x\"y")) nil)))) end))

encode-nested : encode nested ≡ ok (text "{\"a\":[true,null,\"x\\\"y\"],\"b\":-12}")
unfolding canonical_json
encode-nested = refl

encode-neg_zero :
    encode (arr (cons (num neg_zero) nil)) ≡ err (type_error NotCanonical.negative_zero)
unfolding canonical_json
encode-neg_zero = refl

encode-first_error :
    encode (obj (field (text "z") undefined (field (text "a") (num neg_zero) end)))
    ≡ err (type_error NotCanonical.negative_zero)
unfolding canonical_json
encode-first_error = refl

-- A pair of surrogates stays, a lone one is escaped.
quote_surrogates : quote (0xd83d ∷ 0xde00 ∷ 0xd83d ∷ []) ≡ 0x22 ∷ 0xd83d ∷ 0xde00 ∷ text "\\ud83d\""
unfolding quote
quote_surrogates = refl

utf8_kinds :
    utf8 (0x41 ∷ 0xe9 ∷ 0x20b9 ∷ 0xd83d ∷ 0xde00 ∷ 0xde00 ∷ [])
    ≡ 0x41 ∷ 0xc3 ∷ 0xa9 ∷ 0xe2 ∷ 0x82 ∷ 0xb9 ∷ 0xf0 ∷ 0x9f ∷ 0x98 ∷ 0x80 ∷ 0xef ∷ 0xbf ∷ 0xbd ∷ []
unfolding utf8
utf8_kinds = refl
