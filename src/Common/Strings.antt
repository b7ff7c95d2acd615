-- ===== src/Common/Strings.antt =====
-- A JavaScript string: its UTF-16 code units. Literals of the source are ASCII.
use Prim.Native.Char.{code}
use Prim.Native.String.{String}
use Prim.Native.Nat.{ℕ, zero, suc, ◌+◌, ◌/◌, ◌%◌}
use mathlib.Core.Bool.{Bool, true, false}
use mathlib.Core.List.{List, [], ◌∷◌, ◌++◌}
use native.Mathlib.Decide.{ℕ_discrete}
use hundi.Common.Tests.{ltb, if◌then◌else◌}
use hundi.Common.Int.{ℤ, pos, negsuc}

abbrev pub Text : Type 0
Text = List ℕ

-- A literal of the source.
abbrev pub text : String → Text
text String.[] = []
text (String.◌∷◌ c s) = code c ∷ text s

unfoldable pub Text-discrete : Discrete Text
unfolding ℕ_discrete
Text-discrete = hlevel ℕ_discrete

infix 50 ◌===◌
abbrev pub ◌===◌ : Text → Text → Bool
a === b = elim (Text-discrete a b) [ yes _ ↦ true | no _ ↦ false ]

-- The default order of `Array.prototype.sort` on strings: by code units, a prefix first.
unfoldable pub text_leb : Text → Text → Bool
text_leb [] t = true
text_leb (a ∷ s) [] = false
text_leb (a ∷ s) (b ∷ t) = if ltb a b then true else if ltb b a then false else text_leb s t

-- `xs.join(sep)`
unfoldable pub join : Text → List Text → Text
join sep [] = []
join sep (s ∷ []) = s
join sep (s ∷ t ∷ ts) = s ++ (sep ++ join sep (t ∷ ts))

-- The decimal digits of a number; `n + 1` rounds are enough, since each divides by ten.
digits_from : ℕ → ℕ → Text → Text
digits_from zero n acc = acc
digits_from (suc fuel) n acc =
    let more = digits_from fuel (n / 10) ((b'0' + n % 10) ∷ acc) in
    if ltb n 10 then (b'0' + n) ∷ acc else more

unfoldable pub digits : ℕ → Text
unfolding digits_from
digits n = digits_from (suc n) n []

-- `String(z)` for an integer.
unfoldable pub print_int : ℤ → Text
unfolding digits
print_int (pos n) = digits n
print_int (negsuc n) = b'-' ∷ digits (suc n)
