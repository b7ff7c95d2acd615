-- ===== src/Core/Crypto.antt =====
-- The code that packages/core calls and does not implement: @noble/hashes, @noble/ed25519,
-- @noble/curves, and the platform's JSON.parse and TextDecoder.
use hundi.Common.{ℕ, Bool, List, Text, Result}
use hundi.Core.Value.{Value}

pub record Crypto : Type 0 where
  pub sha256 : List ℕ → List ℕ
  pub bytes_to_hex : List ℕ → Text
  -- the signature, the message and the public key; noble throws on an ill-sized argument
  pub ed25519_verify : List ℕ → List ℕ → List ℕ → Result Bool
  pub p256_verify : List ℕ → List ℕ → List ℕ → Result Bool
  pub json_parse : Text → Result Value
  pub utf8_decode : List ℕ → Text
