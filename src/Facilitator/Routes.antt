-- ===== src/Facilitator/Routes.antt =====
-- packages/facilitator/src/routes: the handlers, from the validated body on.
pub mod Approvals
pub mod Mandates
pub mod Refund
pub mod Revoke
pub mod Settlements
pub mod Verify
pub mod Webhook
pub mod Decisions
