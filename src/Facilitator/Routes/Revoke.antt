-- ===== src/Facilitator/Routes/Revoke.antt =====
-- packages/facilitator/src/routes/revoke.ts: POST /revoke, from the validated body on.
pub mod Blocks
use hundi.Common.{
  Bool, true, false, Option, none, some, Text, text, ◌++◌, is_some, if◌then◌else◌, route_error,
}
use hundi.Core.Value.{Value, str, obj, end, field}
use hundi.Core.CanonicalJson.{canonical_json}
use hundi.Core.Crypto.{Crypto}
use hundi.Core.Signature.{verify_mandate_signature}
use hundi.Facilitator.Db.{Db}
use hundi.Facilitator.Action.{Action, pure, gets, lift, modify, tx, need, ensure, ◌>>=◌, ◌>>◌}
use hundi.Facilitator.Table.{update}
use hundi.Facilitator.Ledger.{append_ledger}
use hundi.Facilitator.MandateRepo.{get_mandate_row, has_mandate_id}

-- `{ mandateId, action: 'revoke' }`
abbrev pub revoke_payload : Text → Value
revoke_payload mandate_id =
    obj
      (field (text "mandateId") (str mandate_id) (field (text "action") (str (text "revoke")) end))

module _ (crypto : Crypto) where
  unfoldable pub revoke : Text → Action (Unit {0})
  revoke mandate_id = do
    modify (λ db. record db {
      mandates =
          update (has_mandate_id mandate_id) (λ row. record row { revoked_at = some db.clock })
            db.mandates;
    })
    _ ← append_ledger crypto (record {
      event_type = text "mandate_revoked";
      settlement_id = none;
      actor = text "mandate:" ++ mandate_id;
      payload = obj end;
    })
    pure tt

  -- A second revocation confirms the first.
  unfoldable pub finish : (mandate_id : Text) → (already_revoked : Bool) → Action Bool
  finish mandate_id true = pure true
  finish mandate_id false = do tx (revoke mandate_id); pure false

  -- The answer says whether the mandate was revoked already.
  unfoldable pub post_revoke : (mandate_id : Text) → (sig : Value) → Action Bool
  post_revoke mandate_id sig = do
    registered ← gets (λ db. get_mandate_row db mandate_id)
    mandate_row ← need (route_error 404 (text "MANDATE_UNKNOWN")) registered
    bytes ← lift (canonical_json (revoke_payload mandate_id))
    valid ← lift (verify_mandate_signature crypto bytes sig mandate_row.credential)
    ensure (route_error 401 (text "REVOKE_SIG_INVALID")) valid
    finish mandate_id (is_some mandate_row.revoked_at)
