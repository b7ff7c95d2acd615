-- ===== src/Core/CanonicalJson.antt =====
-- packages/core/src/canonical-json.ts, without the path inside an
-- error's message.
pub mod Total
pub mod KeyOrder
mod Tests
use hundi.Common.{
  ℕ, Bool, true, false, List, [], ◌∷◌, ◌++◌, Text, text, text_leb, join, print_int, ℤ, pos, negsuc,
  ltb, leb, if◌then◌else◌, Result, ok, err, type_error, NotCanonical, ◌>>=◌, Option, none, some,
}
use hundi.Core.Platform.{quote, utf8}
use hundi.Core.Value.{
  Number, int, neg_zero, fraction, nan, infinity, Value, undefined, null, bigint, function, symbol,
  bool, num, str, arr, obj, Items, nil, cons, Fields, end, field,
}

abbrev pub max_safe_integer : ℕ
max_safe_integer = 9007199254740991

unfoldable pub is_safe : ℤ → Bool
is_safe (pos n) = leb n max_safe_integer
is_safe (negsuc n) = ltb n max_safe_integer

-- `assertCanonicalLeaf`: what it throws, if it does.
unfoldable pub check_number : Number → Option NotCanonical
unfolding is_safe
check_number nan = some NotCanonical.non_finite
check_number infinity = some NotCanonical.non_finite
check_number fraction = some NotCanonical.non_integer
check_number (int z) = if is_safe z then none else some NotCanonical.unsafe_integer
check_number neg_zero = some NotCanonical.negative_zero

unfoldable pub assert_canonical_leaf : Value → Option NotCanonical
unfolding check_number
assert_canonical_leaf null = none
assert_canonical_leaf (bool b) = none
assert_canonical_leaf (str s) = none
assert_canonical_leaf (num n) = check_number n
assert_canonical_leaf bigint = some NotCanonical.bigint
assert_canonical_leaf undefined = some NotCanonical.undefined
assert_canonical_leaf function = some NotCanonical.function
assert_canonical_leaf (arr xs) = none
assert_canonical_leaf (obj fs) = none
assert_canonical_leaf symbol = some NotCanonical.unsupported

-- JSON.stringify of a number that passed the check.
abbrev print_number : Number → Text
print_number (int z) = print_int z
print_number _ = text "null"

abbrev Entry : Type 0
Entry = Text × Result Text

-- `Object.keys(obj).sort()`, carrying what each key's value encodes to.
insert_entry : Entry → List Entry → List Entry
insert_entry e [] = e ∷ []
insert_entry e (f ∷ es) = if text_leb e.0 f.0 then e ∷ f ∷ es else f ∷ insert_entry e es

sort_entries : List Entry → List Entry
unfolding insert_entry text_leb
sort_entries [] = []
sort_entries (e ∷ es) = insert_entry e (sort_entries es)

-- The callback of `keys.map`, over the sorted keys: the first that throws decides.
encode_entries : List Entry → Result (List Text)
encode_entries [] = ok []
encode_entries ((k, r) ∷ es) = do
  v ← r
  rest ← encode_entries es
  ok ((quote k ++ (b':' ∷ v)) ∷ rest)

-- A leaf that the check lets through, or the check's exception.
abbrev checked : Option NotCanonical → Text → Result Text
checked none t = ok t
checked (some e) t = err (type_error e)

mutual
  pub encode : Value → Result Text
  encode null = ok (text "null")
  encode (bool true) = ok (text "true")
  encode (bool false) = ok (text "false")
  encode (num n) = checked (assert_canonical_leaf (num n)) (print_number n)
  encode (str s) = ok (quote s)
  encode (arr xs) = do ts ← encode_items xs; ok (b'[' ∷ (join (text ",") ts ++ text "]"))
  encode (obj fs) = do
    ts ← encode_entries (sort_entries (entries fs))
    ok (b'{' ∷ (join (text ",") ts ++ text "}"))
  encode undefined = checked (assert_canonical_leaf undefined) []
  encode bigint = checked (assert_canonical_leaf bigint) []
  encode function = checked (assert_canonical_leaf function) []
  encode symbol = checked (assert_canonical_leaf symbol) []

  encode_items : Items → Result (List Text)
  encode_items nil = ok []
  encode_items (cons v vs) = do t ← encode v; ts ← encode_items vs; ok (t ∷ ts)

  entries : Fields → List Entry
  entries end = []
  entries (field k v fs) = (k, encode v) ∷ entries fs

unfoldable pub canonical_json : Value → Result (List ℕ)
unfolding encode assert_canonical_leaf quote join print_int sort_entries encode_entries utf8
canonical_json v = do json ← encode v; ok (utf8 json)
