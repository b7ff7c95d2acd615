-- ===== src/Facilitator/Routes/Decisions.antt =====
-- packages/facilitator/src/routes/settlements.ts: POST /settlements/:id/decisions, from the validated
-- body on.
use hundi.Common.{◌++◌, Text, text, find, take, ◌===◌, route_error}
use hundi.Core.Value.{Value, str, obj, end, field, text_of}
use hundi.Core.CanonicalJson.{canonical_json}
use hundi.Core.Crypto.{Crypto}
use hundi.Core.Mandate.{IntentMandate}
use hundi.Core.Signature.{ed25519, verify_mandate_signature}
use hundi.Facilitator.Action.{Action, gets, lift, tx, need, ensure, ◌>>=◌, ◌>>◌}
use hundi.Facilitator.MandateRepo.{get_mandate_row}
use hundi.Facilitator.SettlementService.{log_event}

-- `{ type: 'ed25519', signature_hex }`
abbrev pub agent_signature : Text → Value
agent_signature signature_hex = obj (
    field (text "type") (str (text "ed25519"))
      (field (text "signature_hex") (str signature_hex) end))

module _ (crypto : Crypto) where
  -- The agent's own key signs, not the credential of the mandate.
  unfoldable pub check_decision : IntentMandate → Value → (signature_hex : Text) → Action (Unit {0})
  check_decision intent payload signature_hex = do
    payload_bytes ← lift (canonical_json payload)
    valid ← lift (
        verify_mandate_signature crypto payload_bytes (agent_signature signature_hex)
          (ed25519 (text_of intent.agent_pubkey_hex)))
    ensure (route_error 401 (text "AGENT_SIG_INVALID")) valid

  unfoldable pub post_decisions :
      (settlement_id : Text) → (payload : Value) → (signature_hex : Text) → Action (Unit {0})
  post_decisions settlement_id payload signature_hex = do
    found ← gets (λ db. find (λ s. s.id === settlement_id) db.settlements)
    settlement ← need (route_error 404 (text "SETTLEMENT_NOT_FOUND")) found
    registered ← gets (λ db. get_mandate_row db settlement.mandate_id)
    mandate_row ← need (route_error 404 (text "MANDATE_UNKNOWN")) registered
    check_decision mandate_row.intent payload signature_hex
    tx (
        log_event crypto settlement_id (text "agent_decision")
          (text "agent:" ++ take 8 (text_of (IntentMandate.agent_pubkey_hex mandate_row.intent)))
          payload)
