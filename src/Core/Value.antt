-- ===== src/Core/Value.antt =====
-- The values of JavaScript that reach `canonicalJson` and the schema checks.
use hundi.Common.{ℕ, zero, ℤ, pos, Bool, true, false, List, [], ◌∷◌, Text, ◌===◌, if◌then◌else◌}

-- A number: an integer other than -0, or one of the kinds that are only ever rejected.
pub data Number : Type 0 where
  int : ℤ → Number
  neg_zero fraction nan infinity : Number

-- An object's own keys stand in the order of their insertion.
mutual
  pub data Value : Type 0 where
    undefined null bigint function symbol : Value
    bool : Bool → Value
    num : Number → Value
    str : Text → Value
    arr : Items → Value
    obj : Fields → Value

  pub data Items : Type 0 where
    nil : Items
    cons : Value → Items → Items

  pub data Fields : Type 0 where
    end : Fields
    field : Text → Value → Fields → Fields

-- `o[k]`: an absent key reads as `undefined`. Only own keys are looked up.
unfoldable pub get_field : Text → Fields → Value
get_field k end = undefined
get_field k (field j v fs) = if j === k then v else get_field k fs

unfoldable pub get : Text → Value → Value
unfolding get_field
get k (obj fs) = get_field k fs
get k _ = undefined

-- `!!v`
abbrev pub truthy : Value → Bool
truthy undefined = false
truthy null = false
truthy (bool b) = b
truthy (num neg_zero) = false
truthy (num nan) = false
truthy (num (int (pos zero))) = false
truthy (str []) = false
truthy _ = true

abbrev pub is_undefined : Value → Bool
is_undefined undefined = true
is_undefined _ = false

-- Readings of a value whose type a check has established; anything else reads as the default.
abbrev pub int_of : Value → ℤ
int_of (num (int z)) = z
int_of _ = pos 0

abbrev pub nat_of : Value → ℕ
nat_of (num (int (pos n))) = n
nat_of _ = 0

abbrev pub text_of : Value → Text
text_of (str s) = s
text_of _ = []

abbrev pub values : Items → List Value
values nil = []
values (cons v vs) = v ∷ values vs

abbrev pub items_of : Value → List Value
items_of (arr xs) = values xs
items_of _ = []

abbrev pub of_values : List Value → Items
of_values [] = nil
of_values (v ∷ vs) = cons v (of_values vs)

-- `v === t` for a text `t`
abbrev pub is_text : Value → Text → Bool
is_text (str s) t = s === t
is_text _ t = false

abbrev pub nat : ℕ → Value
nat n = num (int (pos n))
