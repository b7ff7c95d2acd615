-- ===== src/Facilitator/App.antt =====
-- packages/facilitator/src/app.ts and serve.ts: what happens to the service. Requests that are
-- modelled, the steps of the executor's runs, the sweeps, and the provider's reports. A request
-- whose handler throws is answered by `onError`; the database keeps what was committed before.
pub mod Verifies
pub mod Solvent
pub mod Charges
use hundi.Common.{ℕ, Option, List, [], ◌∷◌, Text, Result, Exception}
use hundi.Core.Value.{Value}
use hundi.Core.Crypto.{Crypto}
use hundi.Core.Mandate.{IntentMandate, CartMandate}
use hundi.Core.Signature.{Credential}
use hundi.Facilitator.Db.{Db}
use hundi.Facilitator.Reconcile.{Reply, CaptureTarget, RazorpayPayment, apply_capture}
use hundi.Facilitator.Reconcile.Order.{
  CaptureEvent, reconcile_by_order, reconcile_by_attempt, handle_provider_capture,
}
use hundi.Facilitator.Executor.{Run}
use hundi.Facilitator.Executor.Steps.{Wake, run_once, resume_settling_run, step}
use hundi.Facilitator.Sweep.{SweepTtls}
use hundi.Facilitator.Sweep.Rules.{run_sweep}
use hundi.Facilitator.Routes.Settlements.{post_settlements}
use hundi.Facilitator.Routes.Approvals.{Approval, post_approvals}
use hundi.Facilitator.Routes.Revoke.{post_revoke}
use hundi.Facilitator.Routes.Mandates.{post_ceremony_tokens, post_mandates}
use hundi.Facilitator.Routes.Refund.{post_refund}
use hundi.Facilitator.Routes.Verify.{post_verify}
use hundi.Facilitator.Routes.Webhook.{post_webhook}
use hundi.Facilitator.Routes.Decisions.{post_decisions}

-- A delivery to the webhook, with the platform's HMAC.
pub record Delivery : Type 0 where
  pub hmac_hex : Text → Text → Text
  pub message_of : Exception → Text
  pub secret : Text
  pub raw_body : Text
  pub signature_header : Option Text
  pub event_id : Option Text

-- What happens, with what it needs of the outside: the time, fresh ids, and the provider's replies.
pub data Request : Type 0 where
  -- The clock of the database goes on.
  at : (clock : ℕ) → Request
  ceremony_token : (token : Text) → Request
  mandate : IntentMandate → Credential → (token : Text) → Request
  verify : IntentMandate → CartMandate → (now : ℕ) → Request
  settlement :
      (idempotency_key : Option Text)
      → (body : Value) → (settlement_id : Text) → (now : ℕ) → Request
  decision : (settlement_id : Text) → (payload : Value) → (signature_hex : Text) → Request
  refund : (settlement_id : Text) → (reply : Result Text) → Request
  approval : (now : ℕ) → Approval → Request
  revocation : (mandate_id : Text) → (sig : Value) → Request
  webhook : Delivery → Reply (List RazorpayPayment) → Reply Text → Request
  capture : CaptureTarget → (payment_id : Text) → Request
  provider_capture : CaptureEvent → Reply Text → Request
  reconciliation : (provider_order_id : Text) → Reply (List RazorpayPayment) → Reply Text → Request
  execution : (settlement_id : Text) → (now : ℕ) → (fresh : Text) → Request
  resumption : (settlement_id fresh : Text) → Request
  -- A run that waited goes on.
  continuation : Run → Wake → Request
  sweep :
      SweepTtls
      → (now : ℕ) → (payments : Text → Reply (List RazorpayPayment)) → (reply : Text → Reply Text)
      → Request

module _ (crypto : Crypto) where
  -- The database after a request.
  unfoldable pub serve : Request → Db → Db
  serve (at clock) db = record db { clock = clock }
  serve (ceremony_token token) db = (post_ceremony_tokens token db).1
  serve (mandate intent credential token) db = (post_mandates crypto intent credential token db).1
  serve (verify intent cart now) db = (post_verify crypto intent cart now db).1
  serve (settlement key body id now) db = (post_settlements crypto key body id now db).1
  serve (decision id payload signature_hex) db =
      (post_decisions crypto id payload signature_hex db).1
  serve (refund id reply) db = (post_refund crypto id reply db).1
  serve (approval now a) db = (post_approvals crypto now a db).1
  serve (revocation id sig) db = (post_revoke crypto id sig db).1
  serve (webhook d payments reply) db =
      (post_webhook crypto d.message_of d.hmac_hex d.secret d.raw_body d.signature_header d.event_id
        payments reply db).1
  serve (capture target payment_id) db = (apply_capture crypto target payment_id db).1
  serve (provider_capture event reply) db = (handle_provider_capture crypto event reply db).1
  serve (reconciliation order payments reply) db =
      (reconcile_by_order crypto order payments reply db).1
  serve (execution id now fresh) db = (run_once crypto id now fresh db).1
  serve (resumption id fresh) db = (resume_settling_run crypto id fresh db).1
  serve (continuation run wake) db = (step crypto run wake db).1
  serve (sweep ttls now payments reply) db = (run_sweep crypto ttls now payments reply db).1

  -- The requests one after another.
  unfoldable pub serve_all : List Request → Db → Db
  serve_all [] db = db
  serve_all (request ∷ requests) db = serve_all requests (serve request db)
