-- ===== src/Facilitator/Preserves/Captures.antt =====
-- What satisfies the laws is preserved by applyCapture of packages/facilitator/src/reconcile.ts, and
-- by POST /revoke of packages/facilitator/src/routes/revoke.ts.

use hundi.Facilitator.Db.{Db}
use hundi.Common.{some, true, false, Bool, Text, none, is_some}
use hundi.Core.Crypto.{Crypto}
use hundi.Core.Value.{Value}
use hundi.Core.CanonicalJson.{canonical_json}
use hundi.Core.Signature.{verify_mandate_signature}
use hundi.Facilitator.Table.{update}
use hundi.Facilitator.MandateRepo.{has_mandate_id, get_mandate_row}
use hundi.Facilitator.Action.{modify}
use hundi.Facilitator.Reconcile.{
  CaptureTarget, set_payment, log_capture, capture_settlement, apply_capture,
}
use hundi.Facilitator.Routes.Revoke.{revoke_payload, revoke, finish, post_revoke}
use hundi.Facilitator.Preserves.{
  Laws, CaptureLaws, Preserves, Preserves->>=, Preserves-tx, Preserves-moves, Preserves-pure,
  Preserves-gets, Preserves-lift, Preserves-need, Preserves-ensure,
}

module _ (crypto : Crypto) (P : Db → Type 0) (laws : CaptureLaws crypto P) where
  log_capture-Preserves :
      (target : CaptureTarget) (payment_id : Text) (moved : Bool)
      → Preserves P (log_capture crypto target payment_id moved)
  unfolding log_capture
  log_capture-Preserves target payment_id false = Preserves-pure P _
  log_capture-Preserves target payment_id true =
      Preserves->>= P _ _ (Preserves->>= P _ _ (laws.append _) (λ _. Preserves-pure P _))
        (λ _. Preserves-pure P _)

  capture_settlement-Preserves :
      (target : CaptureTarget) (payment_id : Text) (moved : Bool)
      → Preserves P (capture_settlement crypto target payment_id moved)
  unfolding capture_settlement
  capture_settlement-Preserves target payment_id false = Preserves-pure P _
  capture_settlement-Preserves target payment_id true =
      Preserves->>= P (modify (set_payment target.attempt_id payment_id)) _
        (laws.set_payment target.attempt_id payment_id)
        (λ _.
          Preserves->>= P _ _ (Preserves-moves P _ (laws.move_settlement _ _ _ none (λ e. cc e)))
            (λ moved. log_capture-Preserves target payment_id moved))

  -- What satisfies the laws is preserved by applyCapture, whether the capture is applied, found
  -- to be another's or refused.
  pub apply_capture-Preserves :
      (target : CaptureTarget) (payment_id : Text)
      → Preserves P (apply_capture crypto target payment_id)
  unfolding apply_capture
  apply_capture-Preserves target payment_id = Preserves-tx P _ (
      Preserves->>= P _ _ (Preserves-moves P _ (laws.move_attempt _ _ _))
        (λ moved. capture_settlement-Preserves target payment_id moved))

module _ (crypto : Crypto) (P : Db → Type 0) (laws : Laws crypto P) where
  revokes-Preserves :
      (mandate_id : Text)
      → Preserves P (
          modify (λ db. record db {
            mandates =
                update
                  (has_mandate_id mandate_id)
                  (λ row. record row { revoked_at = some db.clock })
                  db.mandates;
          }))
  unfolding Preserves
  revokes-Preserves mandate_id db i = laws.revoke_mandate mandate_id db i

  revoke-Preserves : (mandate_id : Text) → Preserves P (revoke crypto mandate_id)
  unfolding revoke
  revoke-Preserves mandate_id =
      Preserves->>= P _ _ (revokes-Preserves mandate_id)
        (λ _. Preserves->>= P _ _ (laws.append _) (λ _. Preserves-pure P _))

  finish-Preserves :
      (mandate_id : Text) (already_revoked : Bool)
      → Preserves P (finish crypto mandate_id already_revoked)
  unfolding finish
  finish-Preserves mandate_id true = Preserves-pure P _
  finish-Preserves mandate_id false =
      Preserves->>= P _ _ (Preserves-tx P _ (revoke-Preserves mandate_id)) (λ _. Preserves-pure P _)

  -- What satisfies the laws is preserved by POST /revoke, whether the request is answered or
  -- refused.
  pub post_revoke-Preserves :
      (mandate_id : Text) (sig : Value) → Preserves P (post_revoke crypto mandate_id sig)
  unfolding post_revoke
  post_revoke-Preserves mandate_id sig =
      Preserves->>= P _ _ (Preserves-gets P (λ d. get_mandate_row d mandate_id)) (λ registered.
        Preserves->>= P _ _ (Preserves-need P _ registered) (λ row.
          Preserves->>= P _ _ (Preserves-lift P (canonical_json (revoke_payload mandate_id)))
            (λ bytes.
              Preserves->>= P _ _
                (Preserves-lift P (verify_mandate_signature crypto bytes sig row.credential))
                (λ valid.
                  Preserves->>= P _ _ (Preserves-ensure P _ valid)
                    (λ _. finish-Preserves mandate_id (is_some row.revoked_at))))))
