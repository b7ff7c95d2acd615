-- ===== src/Core/Platform.antt =====
-- The parts of JSON.stringify and TextEncoder that packages/core/src/canonical-json.ts uses.
use hundi.Common.{
  ℕ, ◌+◌, ◌-◌, ◌*◌, ◌/◌, ◌%◌, Bool, false, ◌&&◌, ◌||◌, [], ◌∷◌, ◌++◌, Text, text, ltb, leb, ◌==◌,
  if◌then◌else◌, Option, none, some, List,
}

abbrev is_lead : ℕ → Bool
is_lead c = leb 0xd800 c && ltb c 0xdc00

abbrev is_trail : ℕ → Bool
is_trail c = leb 0xdc00 c && ltb c 0xe000

abbrev starts_with_trail : Text → Bool
starts_with_trail [] = false
starts_with_trail (c ∷ s) = is_trail c

abbrev hex_digit : ℕ → ℕ
hex_digit d = if ltb d 10 then b'0' + d else b'a' + (d - 10)

-- `\uXXXX`
unicode_escape : ℕ → Text
unicode_escape c =
    b'\\'
    ∷ b'u'
    ∷ hex_digit (c / 4096 % 16)
    ∷ hex_digit (c / 256 % 16)
    ∷ hex_digit (c / 16 % 16)
    ∷ hex_digit (c % 16)
    ∷ []

-- One code unit, as JSON.stringify writes it where it is no half of a surrogate pair.
escape_unit : ℕ → Text
unfolding unicode_escape
escape_unit c =
    if c == 0x22
    then text "\\\""
    else if c == 0x5c
    then text "\\\\"
    else if c == 0x08
    then text "\\b"
    else if c == 0x09
    then text "\\t"
    else if c == 0x0a
    then text "\\n"
    else if c == 0x0c
    then text "\\f"
    else if c == 0x0d
    then text "\\r"
    else if ltb c 0x20 || is_lead c || is_trail c
    then unicode_escape c
    else c ∷ []

-- `paired` says that the unit is the second half of a surrogate pair.
escape_from : Bool → Text → Text
unfolding escape_unit
escape_from paired [] = []
escape_from paired (c ∷ s) =
    let pairs = is_lead c && starts_with_trail s in
    (if paired || pairs then c ∷ [] else escape_unit c) ++ escape_from pairs s

-- JSON.stringify of a string.
unfoldable pub quote : Text → Text
unfolding escape_from
quote s = b'"' ∷ (escape_from false s ++ b'"' ∷ [])

-- The three bytes of U+FFFD, which TextEncoder writes for a lone surrogate.
replacement : List ℕ
replacement = 0xef ∷ 0xbf ∷ 0xbd ∷ []

-- The UTF-8 bytes of one code point.
utf8_point : ℕ → List ℕ
utf8_point c =
    if ltb c 0x80
    then c ∷ []
    else if ltb c 0x800
    then (0xc0 + c / 64) ∷ (0x80 + c % 64) ∷ []
    else if ltb c 0x10000
    then (0xe0 + c / 4096) ∷ (0x80 + c / 64 % 64) ∷ (0x80 + c % 64) ∷ []
    else (0xf0 + c / 262144) ∷ (0x80 + c / 4096 % 64) ∷ (0x80 + c / 64 % 64) ∷ (0x80 + c % 64) ∷ []

-- `lead` is the first half of a surrogate pair whose second half comes next.
utf8_from : Option ℕ → Text → List ℕ
unfolding utf8_point replacement
utf8_from lead [] = []
utf8_from (some l) (c ∷ s) =
    utf8_point (0x10000 + (l - 0xd800) * 0x400 + (c - 0xdc00)) ++ utf8_from none s
utf8_from none (c ∷ s) =
    let pairs = is_lead c && starts_with_trail s in
    (if pairs then [] else if is_lead c || is_trail c then replacement else utf8_point c)
    ++ utf8_from (if pairs then some c else none) s

-- TextEncoder's `encode`.
unfoldable pub utf8 : Text → List ℕ
unfolding utf8_from
utf8 s = utf8_from none s
