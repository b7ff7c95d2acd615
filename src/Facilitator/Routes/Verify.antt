-- ===== src/Facilitator/Routes/Verify.antt =====
-- packages/facilitator/src/routes/verify.ts: POST /verify, the dry run of the gate.
use hundi.Common.{ℕ, none}
use hundi.Core.Crypto.{Crypto}
use hundi.Core.Mandate.{IntentMandate, CartMandate}
use hundi.Core.Verify.Checks.{Gate}
use hundi.Core.Verify.{Pass, verify_chain}
use hundi.Facilitator.Action.{Action, pure, gets, lift, ◌>>=◌}
use hundi.Facilitator.VerifyLogic.{build_verify_ctx}

-- The answer is 200 whatever the gate says; an exception of the gate is a 500.
unfoldable pub post_verify :
    (crypto : Crypto) → IntentMandate → CartMandate → (now : ℕ) → Action (Gate Pass)
post_verify crypto intent cart now = do
  built ← gets (λ db. build_verify_ctx crypto db intent cart now none)
  (ctx, hash) ← lift built
  pure (verify_chain crypto intent cart ctx)
