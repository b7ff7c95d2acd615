-- ===== src/Core/CanonicalJson/KeyOrder.antt =====
-- The canonical form does not depend on the order in which an object's keys were inserted.
use hundi.Common.{◌≡◌, refl, ap, ◌∙◌, ◌≢◌, Result, ok, ◌>>=◌, List, [], ◌∷◌, arith, Text}
use hundi.Common.TextOrder.{text_leb-total, text_leb_antisymm, text_leb_trans}
use hundi.Core.Platform.{utf8}
use hundi.Core.Value.{Value, arr, obj, Items, nil, cons, Fields, end, field}
use hundi.Core.CanonicalJson.{
  encode, encode_items, entries, Entry, insert_entry, sort_entries, canonical_json,
}

-- Two values that differ at most in the order of the keys of the objects inside them.
mutual
  pub data SameValue : Value → Value → Type 0 where
    same : (v : Value) → SameValue v v
    same_arr : {xs ys : Items} → SameItems xs ys → SameValue (arr xs) (arr ys)
    same_obj : {fs gs : Fields} → SameFields fs gs → SameValue (obj fs) (obj gs)

  pub data SameItems : Items → Items → Type 0 where
    same_nil : SameItems nil nil
    same_cons :
        {v w : Value} {xs ys : Items}
        → SameValue v w
        → SameItems xs ys
        → SameItems (cons v xs) (cons w ys)

  pub data SameFields : Fields → Fields → Type 0 where
    same_end : SameFields end end
    same_field :
        {k : Text} {v w : Value} {fs gs : Fields}
        → SameValue v w
        → SameFields fs gs
        → SameFields (field k v fs) (field k w gs)
    swap_fields :
        {j k : Text} {v w : Value} {fs : Fields}
        → j ≢ k
        → SameFields (field j v (field k w fs)) (field k w (field j v fs))
    then_same : {fs gs hs : Fields} → SameFields fs gs → SameFields gs hs → SameFields fs hs

insert_entry_comm :
    (e f : Entry) (es : List Entry)
    → e.0 ≢ f.0
    → insert_entry e (insert_entry f es) ≡ insert_entry f (insert_entry e es)
unfolding insert_entry
insert_entry_comm e f [] ne = ground (arith, text_leb-total e.0 f.0, text_leb_antisymm e.0 f.0)
insert_entry_comm e f (g ∷ es) ne = ground (
  arith,
  text_leb-total e.0 f.0,
  text_leb_antisymm e.0 f.0,
  text_leb_trans e.0 f.0 g.0,
  text_leb_trans f.0 e.0 g.0,
  insert_entry_comm e f es ne,
)

mutual
  unfolding encode sort_entries

  same-encode : {v w : Value} → SameValue v w → encode v ≡ encode w
  same-encode (same v) = refl
  same-encode (same_arr h) = cc (same-encode_items h)
  same-encode (same_obj h) = cc (same-entries h)

  same-encode_items : {xs ys : Items} → SameItems xs ys → encode_items xs ≡ encode_items ys
  same-encode_items same_nil = refl
  same-encode_items (same_cons h t) = rw (same-encode h, same-encode_items t)

  same-entries :
      {fs gs : Fields} → SameFields fs gs → sort_entries (entries fs) ≡ sort_entries (entries gs)
  same-entries same_end = refl
  same-entries (same_field h t) = cc (same-encode h, same-entries t)
  same-entries (swap_fields ne) = insert_entry_comm _ _ _ ne
  same-entries (then_same h t) = same-entries h ∙ same-entries t

canonical_json_cong : (v w : Value) → encode v ≡ encode w → canonical_json v ≡ canonical_json w
unfolding canonical_json
canonical_json_cong v w e = ap (λ (r : Result Text). do json ← r; ok (utf8 json)) e

-- Values that differ only in the order of keys have the same canonical bytes, or throw the same
-- error.
pub canonical_json-SameValue : (v w : Value) → SameValue v w → canonical_json v ≡ canonical_json w
canonical_json-SameValue v w h = canonical_json_cong v w (same-encode h)
