-- ===== src/Core.antt =====
-- packages/core: the mandate chain.
pub mod Value
pub mod Platform
pub mod CanonicalJson
pub mod Hash
pub mod Crypto
pub mod CartItem
pub mod Mandate
pub mod Signature
pub mod Verify
