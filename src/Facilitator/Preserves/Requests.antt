-- ===== src/Facilitator/Preserves/Requests.antt =====
-- The requests of packages/facilitator/src/app.ts.
use hundi.Facilitator.Preserves.Rules.{run_sweep-Preserves}
use hundi.Facilitator.Preserves.Execution.{
  step-Preserves, resume_settling_run-Preserves, run_once-Preserves,
}
use hundi.Facilitator.Preserves.Orders.{
  reconcile_by_order-Preserves, handle_provider_capture-Preserves,
}
use hundi.Facilitator.Preserves.Captures.{apply_capture-Preserves, post_revoke-Preserves}
use hundi.Facilitator.Preserves.Approvals.{post_approvals-Preserves}
use hundi.Facilitator.Preserves.Settlements.{post_settlements-Preserves}
use hundi.Facilitator.Preserves.Mandates.{post_refund-Preserves, post_mandates-Preserves}
use hundi.Facilitator.Preserves.Events.{
  post_webhook-Preserves, post_decisions-Preserves, post_verify-Preserves,
  post_ceremony_tokens-Preserves,
}
use hundi.Common.{List, [], ◌∷◌, refl}
use hundi.Core.Crypto.{Crypto}
use hundi.Facilitator.Db.{Db}
use hundi.Facilitator.App.{
  Request, at, ceremony_token, mandate, verify, settlement, decision, refund, approval, revocation,
  webhook, capture, provider_capture, reconciliation, execution, resumption, continuation, sweep,
  serve, serve_all,
}
use hundi.Facilitator.Preserves.{capture_laws, Laws, Preserves}

module _ (crypto : Crypto) (P : Db → Type 0) (laws : Laws crypto P) where
  serve-Preserves : (request : Request) (db : Db) → P db → P (serve crypto request db)
  unfolding serve Preserves
  serve-Preserves (at clock) = λ db i. laws.other db _ (refl, refl, refl, refl) i
  serve-Preserves (ceremony_token token) = post_ceremony_tokens-Preserves crypto P laws token
  serve-Preserves (mandate intent credential token) =
      post_mandates-Preserves crypto P laws intent credential token
  serve-Preserves (verify intent cart now) = post_verify-Preserves crypto P laws intent cart now
  serve-Preserves (settlement key body id now) =
      post_settlements-Preserves crypto P laws key body id now
  serve-Preserves (decision id payload signature_hex) =
      post_decisions-Preserves crypto P laws id payload signature_hex
  serve-Preserves (refund id reply) = post_refund-Preserves crypto P laws id reply
  serve-Preserves (approval now a) = post_approvals-Preserves crypto P laws now a
  serve-Preserves (revocation id sig) = post_revoke-Preserves crypto P laws id sig
  serve-Preserves (webhook d payments reply) =
      post_webhook-Preserves crypto P laws d.message_of payments reply d.hmac_hex d.secret
        d.raw_body d.signature_header d.event_id
  serve-Preserves (capture target payment_id) =
      apply_capture-Preserves crypto P (capture_laws crypto P laws) target payment_id
  serve-Preserves (provider_capture event reply) =
      handle_provider_capture-Preserves crypto P laws event reply
  serve-Preserves (reconciliation order payments reply) =
      reconcile_by_order-Preserves crypto P laws order payments reply
  serve-Preserves (execution id now fresh) = run_once-Preserves crypto P laws id now fresh
  serve-Preserves (resumption id fresh) = resume_settling_run-Preserves crypto P laws id fresh
  serve-Preserves (continuation run wake) = step-Preserves crypto P laws run wake
  serve-Preserves (sweep ttls now payments reply) =
      run_sweep-Preserves crypto P laws ttls now payments reply

  -- What satisfies the laws holds after any sequence of requests.
  pub serve_all-Preserves :
      (requests : List Request) (db : Db) → P db → P (serve_all crypto requests db)
  unfolding serve_all
  serve_all-Preserves [] db i = i
  serve_all-Preserves (request ∷ requests) db i =
      serve_all-Preserves requests (serve crypto request db) (serve-Preserves request db i)
