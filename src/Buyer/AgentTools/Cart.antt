-- ===== src/Buyer/AgentTools/Cart.antt =====
-- The cart that agents/scripted-brain/src/agent-tools.ts builds and signs, at the gate of
-- packages/core/src/verify.ts.
use hundi.Core.CartItem
use hundi.Core.Crypto.{Crypto}
use hundi.Core.Value.{Value}
