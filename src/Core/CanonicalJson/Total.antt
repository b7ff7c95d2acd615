-- ===== src/Core/CanonicalJson/Total.antt =====
-- `canonicalJson` returns on exactly the values that have a canonical form.
use hundi.Common.{◌≡◌, ◌↔◌, true, false, ok, Result, List, [], ◌∷◌, arith, Text, ◌>>=◌, err}
use hundi.Core.Platform.{utf8}
use hundi.Core.Value.{
  Number, int, neg_zero, fraction, nan, infinity, Value, undefined, null, bigint, function, symbol,
  bool, num, str, arr, obj, Items, nil, cons, Fields, end, field,
}
use hundi.Core.CanonicalJson.{
  is_safe, assert_canonical_leaf, encode, encode_items, entries, Entry, insert_entry, sort_entries,
  encode_entries, canonical_json,
}

abbrev pub IsSafeInteger : Number → Type 0
IsSafeInteger (int z) = is_safe z ≡ true
IsSafeInteger _ = ⊥

-- Every leaf is a string, a Boolean, null, or a safe integer that is not -0.
abbrev mutual
  pub IsCanonical : Value → Type 0
  IsCanonical null = Unit
  IsCanonical (bool b) = Unit
  IsCanonical (str s) = Unit
  IsCanonical (num n) = IsSafeInteger n
  IsCanonical (arr xs) = AreCanonical xs
  IsCanonical (obj fs) = HasCanonicalFields fs
  IsCanonical undefined = ⊥
  IsCanonical bigint = ⊥
  IsCanonical function = ⊥
  IsCanonical symbol = ⊥

  pub AreCanonical : Items → Type 0
  AreCanonical nil = Unit
  AreCanonical (cons v vs) = IsCanonical v × AreCanonical vs

  pub HasCanonicalFields : Fields → Type 0
  HasCanonicalFields end = Unit
  HasCanonicalFields (field k v fs) = IsCanonical v × HasCanonicalFields fs

abbrev pub Returns {ℓ} : {A : Type ℓ} → Result A → Type 0
Returns (ok a) = Unit
Returns (err e) = ⊥

abbrev AllReturn : List Entry → Type 0
AllReturn [] = Unit
AllReturn (e ∷ es) = Returns e.1 × AllReturn es

AllReturn-insert_entry :
    (e : Entry) (es : List Entry) → AllReturn (insert_entry e es) ↔ (Returns e.1 × AllReturn es)
unfolding insert_entry
AllReturn-insert_entry e [] = ((λ h. h), (λ h. h))
AllReturn-insert_entry e (f ∷ es) = ground (arith, AllReturn-insert_entry e es)

AllReturn-sort_entries : (es : List Entry) → AllReturn (sort_entries es) ↔ AllReturn es
unfolding sort_entries
AllReturn-sort_entries [] = ((λ h. h), (λ h. h))
AllReturn-sort_entries (e ∷ es) =
    ground (arith, AllReturn-sort_entries es, AllReturn-insert_entry e (sort_entries es))

Returns-encode_entries : (es : List Entry) → Returns (encode_entries es) ↔ AllReturn es
unfolding encode_entries
Returns-encode_entries [] = ((λ h. h), (λ h. h))
Returns-encode_entries ((k, ok v) ∷ es) = ground (arith, Returns-encode_entries es)
Returns-encode_entries ((k, err x) ∷ es) = ground arith

Returns-encode_number : (n : Number) → Returns (encode (num n)) ↔ IsSafeInteger n
unfolding encode assert_canonical_leaf
Returns-encode_number (int z) = ground arith
Returns-encode_number neg_zero = ((λ h. h), (λ h. h))
Returns-encode_number fraction = ((λ h. h), (λ h. h))
Returns-encode_number nan = ((λ h. h), (λ h. h))
Returns-encode_number infinity = ((λ h. h), (λ h. h))

mutual
  unfolding encode assert_canonical_leaf

  Returns-encode : (v : Value) → Returns (encode v) ↔ IsCanonical v
  Returns-encode null = ((λ h. h), (λ h. h))
  Returns-encode (bool true) = ((λ h. h), (λ h. h))
  Returns-encode (bool false) = ((λ h. h), (λ h. h))
  Returns-encode (str s) = ((λ h. h), (λ h. h))
  Returns-encode (num n) = Returns-encode_number n
  Returns-encode (arr xs) = ground (arith, Returns-encode_items xs)
  Returns-encode (obj fs) = ground (
    arith,
    AllReturn-entries fs,
    AllReturn-sort_entries (entries fs),
    Returns-encode_entries (sort_entries (entries fs)),
  )
  Returns-encode undefined = ((λ h. h), (λ h. h))
  Returns-encode bigint = ((λ h. h), (λ h. h))
  Returns-encode function = ((λ h. h), (λ h. h))
  Returns-encode symbol = ((λ h. h), (λ h. h))

  Returns-encode_items : (xs : Items) → Returns (encode_items xs) ↔ AreCanonical xs
  Returns-encode_items nil = ((λ h. h), (λ h. h))
  Returns-encode_items (cons v vs) = ground (arith, Returns-encode v, Returns-encode_items vs)

  AllReturn-entries : (fs : Fields) → AllReturn (entries fs) ↔ HasCanonicalFields fs
  AllReturn-entries end = ((λ h. h), (λ h. h))
  AllReturn-entries (field k v fs) = ground (arith, Returns-encode v, AllReturn-entries fs)

Returns-utf8 : (r : Result Text) → Returns (do json ← r; ok (utf8 json)) ↔ Returns r
Returns-utf8 (ok a) = ((λ h. h), (λ h. h))
Returns-utf8 (err e) = ((λ h. h), (λ h. h))

-- `canonicalJson` returns bytes, rather than throwing, on exactly the values whose leaves are all
-- strings, Booleans, nulls, or safe integers other than -0, at any depth.
pub Returns-canonical_json : (v : Value) → Returns (canonical_json v) ↔ IsCanonical v
unfolding canonical_json
Returns-canonical_json v =
    let (down, up) = Returns-utf8 (encode v) in
    let (there, back) = Returns-encode v in ((λ h. there (down h)), (λ h. up (back h)))
