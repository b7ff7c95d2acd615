-- ===== src/Tests.antt =====
-- Runs of the program, and each theorem at a concrete input.
pub mod Fixtures
pub mod Gate
pub mod Canonical
pub mod Settlements
pub mod Wallet
pub mod App
pub mod Execution
pub mod Buyer
