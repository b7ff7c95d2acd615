-- ===== src/Facilitator/Routes/Approvals.antt =====
-- packages/facilitator/src/routes/approvals.ts: POST /approvals, from the validated body on. `now` is
-- the time of the request.
pub mod Once
use hundi.Common.{
  ℕ, ◌+◌, min_int, ℤ, Bool, true, false, not, Option, none, some, List, [], ◌∷◌, ◌++◌, Text, text,
  any, find, ◌===◌, if◌then◌else◌, Exception, route_error, stale_transition, ok, err,
}
use hundi.Core.Value.{Value, str, obj, end, field, int_of}
use hundi.Core.CanonicalJson.{canonical_json}
use hundi.Core.Crypto.{Crypto}
use hundi.Core.Mandate.{IntentMandate}
use hundi.Core.Signature.{verify_mandate_signature}
use hundi.Facilitator.Db.{SettlementState, SettlementRow, MandateRow, Decision, ApprovalRow, Db}
use hundi.Facilitator.Action.{
  Action, pure, throw, gets, lift, modify, tx, moves, need, ensure, ◌>>=◌, ◌>>◌,
}
use hundi.Facilitator.StateMachine.{transition_settlement}
use hundi.Facilitator.Ledger.{append_ledger}
use hundi.Facilitator.MandateRepo.{get_mandate_row}
use hundi.Facilitator.VerifyLogic.{compute_mandate_cart_hash}

-- The validated body.
pub record Approval : Type 0 where
  pub settlement_id : Text
  pub mandate_cart_hash_hex : Text
  pub decision : Decision
  pub sig : Value

-- The new state, and the settlement that the executor is told to execute.
pub record Decided : Type 0 where
  pub state : SettlementState
  pub execute : Option Text

abbrev pub to_state : Decision → SettlementState
to_state Decision.approved = SettlementState.approved
to_state Decision.rejected = SettlementState.rejected

abbrev decision_text : Decision → Text
decision_text Decision.approved = text "approved"
decision_text Decision.rejected = text "rejected"

abbrev reject_reason : Decision → Option Text
reject_reason Decision.approved = none
reject_reason Decision.rejected = some (text "approval_rejected")

abbrev event_type : Decision → Text
event_type Decision.approved = text "approval_granted"
event_type Decision.rejected = text "approval_rejected"

abbrev executes : Decision → Text → Option Text
executes Decision.approved id = some id
executes Decision.rejected id = none

-- What the approver signs.
abbrev pub decision_payload : Approval → Value
decision_payload approval = obj (
    field (text "settlement_id") (str approval.settlement_id) (
      field (text "mandate_cart_hash_hex") (str approval.mandate_cart_hash_hex)
        (field (text "decision") (str (decision_text approval.decision)) end)))

abbrev pub approval_row : Approval → ℤ → ApprovalRow
approval_row approval expires_at = record {
  settlement_id = approval.settlement_id;
  decision = approval.decision;
  mandate_cart_hash_hex = approval.mandate_cart_hash_hex;
  sig = approval.sig;
  expires_at = expires_at;
}

abbrev pub is_decided : Text → Db → Bool
is_decided settlement_id db = any (λ a. a.settlement_id === settlement_id) db.approvals

module _ (crypto : Crypto) where
  -- The transaction: the row of the decision, the move, the ledger.
  unfoldable pub decide : (mandate_id : Text) → (expires_at : ℤ) → Approval → Action (Unit {0})
  decide mandate_id expires_at approval = do
    decided ← gets (is_decided approval.settlement_id)
    ensure (route_error 409 (text "ALREADY_DECIDED")) (not decided)
    modify (λ db. record db { approvals = db.approvals ++ approval_row approval expires_at ∷ [] })
    moved ← moves (
        transition_settlement approval.settlement_id SettlementState.pending_approval
          (to_state approval.decision) (reject_reason approval.decision))
    ensure (route_error 409 (text "SETTLEMENT_NOT_PENDING_APPROVAL")) moved
    _ ← append_ledger crypto (record {
      event_type = event_type approval.decision;
      settlement_id = some approval.settlement_id;
      actor = text "mandate:" ++ mandate_id;
      payload = obj (field (text "mandate_cart_hash_hex") (str approval.mandate_cart_hash_hex) end);
    })
    pure tt

  -- Who decides, and on what: the registered key signed the decision, and the hash is that of the
  -- stored intent and cart.
  unfoldable pub check_approval : MandateRow → SettlementRow → Approval → Action (Unit {0})
  check_approval mandate_row settlement approval = do
    decision_bytes ← lift (canonical_json (decision_payload approval))
    valid ←
        lift (verify_mandate_signature crypto decision_bytes approval.sig mandate_row.credential)
    ensure (route_error 401 (text "APPROVAL_SIG_INVALID")) valid
    recomputed ← lift (compute_mandate_cart_hash crypto mandate_row.intent settlement.cart)
    ensure (route_error 400 (text "CART_HASH_MISMATCH"))
        (recomputed === approval.mandate_cart_hash_hex)

  unfoldable pub post_approvals : (now : ℕ) → Approval → Action Decided
  post_approvals now approval = do
    found ← gets (λ db. find (λ s. s.id === approval.settlement_id) db.settlements)
    settlement ← need (route_error 404 (text "SETTLEMENT_NOT_FOUND")) found
    registered ← gets (λ db. get_mandate_row db settlement.mandate_id)
    mandate_row ← need (route_error 404 (text "MANDATE_UNKNOWN")) registered
    check_approval mandate_row settlement approval
    tx (
        decide settlement.mandate_id
          (min_int (now + 1800) (int_of (IntentMandate.expires_at mandate_row.intent))) approval)
    pure (record {
      state = to_state approval.decision;
      execute = executes approval.decision approval.settlement_id;
    })
