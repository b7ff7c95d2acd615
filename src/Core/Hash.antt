-- ===== src/Core/Hash.antt =====
-- packages/core/src/hash.ts. SHA-256 and the hex encoding of its digest are third-party code, and
-- `atob` is the platform's: its forgiving decoder is written out, without the whitespace that it
-- drops.
use hundi.Common.{
  ℕ, ◌+◌, ◌-◌, ◌*◌, ◌/◌, ◌%◌, ◌&&◌, List, [], ◌∷◌, ◌++◌, map, Text, length, ltb, leb, ◌==◌,
  if◌then◌else◌, Result, ok, err, base64_error, ◌>>=◌,
}

-- `BASE64URL_CHARS[d]`, for a digit below 64
unfoldable pub base64url_char : ℕ → ℕ
base64url_char d =
    if ltb d 26
    then b'A' + d
    else if ltb d 52
    then b'a' + (d - 26)
    else if ltb d 62
    then b'0' + (d - 52)
    else if d == 62
    then b'-'
    else b'_'

-- The shifts and masks of bytes, whose parts share no bit.
unfoldable pub bytes_to_base64url : List ℕ → Text
unfolding base64url_char
bytes_to_base64url [] = []
bytes_to_base64url (b0 ∷ []) = base64url_char (b0 / 4) ∷ base64url_char (b0 % 4 * 16) ∷ []
bytes_to_base64url (b0 ∷ b1 ∷ []) =
    base64url_char (b0 / 4)
    ∷ base64url_char (b0 % 4 * 16 + b1 / 16)
    ∷ base64url_char (b1 % 16 * 4)
    ∷ []
bytes_to_base64url (b0 ∷ b1 ∷ b2 ∷ bytes) =
    base64url_char (b0 / 4)
    ∷ base64url_char (b0 % 4 * 16 + b1 / 16)
    ∷ base64url_char (b1 % 16 * 4 + b2 / 64)
    ∷ base64url_char (b2 % 64)
    ∷ bytes_to_base64url bytes

-- `input.replace(/-/g, '+').replace(/_/g, '/')`
abbrev clean_char : ℕ → ℕ
clean_char c = if c == b'-' then b'+' else if c == b'_' then b'/' else c

-- The value of a base64 digit.
unfoldable pub base64_digit : ℕ → Result ℕ
base64_digit c =
    if leb b'A' c && leb c b'Z'
    then ok (c - b'A')
    else if leb b'a' c && leb c b'z'
    then ok (c - b'a' + 26)
    else if leb b'0' c && leb c b'9'
    then ok (c - b'0' + 52)
    else if c == b'+'
    then ok 62
    else if c == b'/'
    then ok 63
    else err base64_error

-- The digits of `atob`, four at a time; a rest of one digit is an error.
decode_digits : Text → Result (List ℕ)
unfolding base64_digit
decode_digits [] = ok []
decode_digits (c0 ∷ []) = err base64_error
decode_digits (c0 ∷ c1 ∷ []) = do
  d0 ← base64_digit c0
  d1 ← base64_digit c1
  ok ((d0 * 4 + d1 / 16) ∷ [])
decode_digits (c0 ∷ c1 ∷ c2 ∷ []) = do
  d0 ← base64_digit c0
  d1 ← base64_digit c1
  d2 ← base64_digit c2
  ok ((d0 * 4 + d1 / 16) ∷ (d1 % 16 * 16 + d2 / 4) ∷ [])
decode_digits (c0 ∷ c1 ∷ c2 ∷ c3 ∷ s) = do
  d0 ← base64_digit c0
  d1 ← base64_digit c1
  d2 ← base64_digit c2
  d3 ← base64_digit c3
  rest ← decode_digits s
  ok ((d0 * 4 + d1 / 16) ∷ (d1 % 16 * 16 + d2 / 4) ∷ (d2 % 4 * 64 + d3) ∷ rest)

-- `atob` drops one or two `=` from the end of a text whose length is a multiple of four.
strip_padding : Text → Text
strip_padding [] = []
strip_padding (c ∷ []) = if c == b'=' then [] else c ∷ []
strip_padding (c ∷ d ∷ []) = if d == b'=' then (if c == b'=' then [] else c ∷ []) else c ∷ d ∷ []
strip_padding (c ∷ d ∷ e ∷ s) = c ∷ strip_padding (d ∷ e ∷ s)

abbrev repeat : ℕ → ℕ → Text
repeat c n =
    if n == 0 then [] else if n == 1 then c ∷ [] else if n == 2 then c ∷ c ∷ [] else c ∷ c ∷ c ∷ []

atob : Text → Result (List ℕ)
unfolding decode_digits strip_padding
atob s = decode_digits (if length s % 4 == 0 then strip_padding s else s)

-- `base64UrlToBytes`
unfoldable pub decode_base64url : Text → Result (List ℕ)
unfolding atob
decode_base64url input =
    let clean = map clean_char input in
    let pad_len = (4 - length clean % 4) % 4 in atob (clean ++ repeat b'=' pad_len)
