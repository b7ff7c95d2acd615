-- ===== src/Facilitator.antt =====
-- packages/facilitator/src: the service that registers mandates and settles carts.
pub mod Db
pub mod Action
pub mod Yields
pub mod Distinct
pub mod Table
pub mod Listed
pub mod StateMachine
pub mod Ledger
pub mod Keeps
pub mod MandateRepo
pub mod VerifyLogic
pub mod SettlementService
pub mod Idempotency
pub mod Wallet
pub mod Charges
pub mod Preserves
pub mod App
pub mod Reconcile
pub mod Executor
pub mod Sweep
pub mod Routes
