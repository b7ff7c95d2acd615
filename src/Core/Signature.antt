-- ===== src/Core/Signature.antt =====
-- packages/core/src/signature.ts. The envelope is a value; its texts are those that
-- core/verify.ts or the request's schema has checked.
use hundi.Common.{
  ℕ, ◌+◌, ◌-◌, ◌*◌, ◌%◌, Bool, false, ◌&&◌, ◌||◌, not, List, [], ◌∷◌, ◌++◌, Text, text, length, leb,
  ◌==◌, if◌then◌else◌, Option, none, some, Result, ok, err, ◌>>=◌, hex_error, jwk_error,
}
use hundi.Core.Value.{Value, get, is_text, text_of, truthy}
use hundi.Core.Hash.{bytes_to_base64url, decode_base64url}
use hundi.Core.Crypto.{Crypto}

pub data Credential : Type 0 where
  ed25519 : (public_key_hex : Text) → Credential
  webauthn_es256 : (public_key_jwk : Value) → Credential

-- One digit of Number.parseInt(_, 16).
hex_value : ℕ → Option ℕ
hex_value c =
    if leb b'0' c && leb c b'9'
    then some (c - b'0')
    else if leb b'a' c && leb c b'f'
    then some (c - b'a' + 10)
    else if leb b'A' c && leb c b'F'
    then some (c - b'A' + 10)
    else none

-- White space that Number.parseInt skips.
abbrev is_space : ℕ → Bool
is_space c =
    (leb 0x09 c && leb c 0x0d)
    || c == 0x20
    || c == 0xa0
    || c == 0x1680
    || (leb 0x2000 c && leb c 0x200a)
    || c == 0x2028
    || c == 0x2029
    || c == 0x202f
    || c == 0x205f
    || c == 0x3000
    || c == 0xfeff

-- Number.parseInt(_, 16) of two characters, stored as a byte: it skips white space, takes a sign,
-- drops a prefix `0x`, and reads the digits before the first other character.
unfoldable pub parse_hex_byte : ℕ → ℕ → Result ℕ
unfolding hex_value
parse_hex_byte c d = elim (hex_value c) [
  | some hi ↦
      if c == b'0' && (d == b'x' || d == b'X')
      then err hex_error
      else elim (hex_value d) [ some lo ↦ ok (hi * 16 + lo) | none ↦ ok hi ]
  | none ↦ elim (hex_value d) [
    | some lo ↦
        if c == b'-'
        then ok ((256 - lo) % 256)
        else if c == b'+' || is_space c
        then ok lo
        else err hex_error
    | none ↦ err hex_error
  ]
]

-- An odd length is reported before a digit is read; the exception is the same.
unfoldable pub hex_to_bytes : Text → Result (List ℕ)
unfolding parse_hex_byte
hex_to_bytes [] = ok []
hex_to_bytes (c ∷ []) = err hex_error
hex_to_bytes (c ∷ d ∷ s) = do b ← parse_hex_byte c d; bs ← hex_to_bytes s; ok (b ∷ bs)

-- The uncompressed SEC1 form of a P-256 key.
jwk_to_raw_p256_public_key : Value → Result (List ℕ)
unfolding decode_base64url
jwk_to_raw_p256_public_key jwk =
    let usable =
      is_text (get (text "kty") jwk) (text "EC")
      && is_text (get (text "crv") jwk) (text "P-256")
      && truthy (get (text "x") jwk)
      && truthy (get (text "y") jwk) in
    if not usable then err jwk_error else do
      x ← decode_base64url (text_of (get (text "x") jwk))
      y ← decode_base64url (text_of (get (text "y") jwk))
      if length x == 32 && length y == 32 then ok (4 ∷ (x ++ y)) else err jwk_error

module _ (crypto : Crypto) where
  open crypto use {sha256, bytes_to_hex, ed25519_verify, p256_verify, json_parse, utf8_decode}

  unfoldable pub sha256_hex : List ℕ → Text
  sha256_hex bytes = bytes_to_hex (sha256 bytes)

  sha256_base64url : List ℕ → Text
  sha256_base64url bytes = bytes_to_base64url (sha256 bytes)

  verify_ed25519 : List ℕ → (sig : Value) → (public_key_hex : Text) → Result Bool
  verify_ed25519 payload sig public_key_hex = do
    signature ← hex_to_bytes (text_of (get (text "signature_hex") sig))
    public_key ← hex_to_bytes public_key_hex
    ed25519_verify signature (sha256 payload) public_key

  -- The checks on `clientData`, then the signature over the authenticator's data.
  verify_client_data :
      (payload client_data_bytes : List ℕ) → (sig client_data jwk : Value) → Result Bool
  unfolding sha256_base64url jwk_to_raw_p256_public_key
  verify_client_data payload client_data_bytes sig client_data jwk =
      if not (is_text (get (text "type") client_data) (text "webauthn.get"))
      then ok false
      else if not (is_text (get (text "challenge") client_data) (sha256_base64url payload))
      then ok false
      else do
        authenticator_data ← decode_base64url (text_of (get (text "authenticatorData_b64u") sig))
        signature ← decode_base64url (text_of (get (text "signature_b64u") sig))
        public_key ← jwk_to_raw_p256_public_key jwk
        p256_verify signature (authenticator_data ++ sha256 client_data_bytes) public_key

  -- A body that JSON.parse refuses is no signature, rather than an error.
  verify_webauthn_es256 : List ℕ → (sig jwk : Value) → Result Bool
  unfolding verify_client_data
  verify_webauthn_es256 payload sig jwk = do
    client_data_bytes ← decode_base64url (text_of (get (text "clientDataJSON_b64u") sig))
    elim (json_parse (utf8_decode client_data_bytes)) [
      | ok client_data ↦ verify_client_data payload client_data_bytes sig client_data jwk
      | err e ↦ ok false
    ]

  unfoldable pub verify_mandate_signature : List ℕ → Value → Credential → Result Bool
  unfolding verify_ed25519 verify_webauthn_es256
  verify_mandate_signature payload sig (ed25519 public_key_hex) =
      if is_text (get (text "type") sig) (text "ed25519")
      then verify_ed25519 payload sig public_key_hex
      else ok false
  verify_mandate_signature payload sig (webauthn_es256 jwk) =
      if is_text (get (text "type") sig) (text "webauthn-es256")
      then verify_webauthn_es256 payload sig jwk
      else ok false
