-- ===== src/Facilitator/Preserves/Approvals.antt =====
-- What satisfies the laws is preserved by POST /approvals of
-- packages/facilitator/src/routes/approvals.ts.
use hundi.Common.{◌≢◌, ℕ, ℤ, refl, not, find, ◌===◌, Text}
use hundi.Core.Crypto.{Crypto}
use hundi.Core.CanonicalJson.{canonical_json}
use hundi.Core.Signature.{verify_mandate_signature}
use hundi.Facilitator.Db.{SettlementState, Db, Decision, SettlementRow, MandateRow}
use hundi.Facilitator.Action.{modify}
use hundi.Facilitator.MandateRepo.{get_mandate_row}
use hundi.Facilitator.VerifyLogic.{compute_mandate_cart_hash}
use hundi.Facilitator.Routes.Approvals.{
  to_state, Approval, decision_payload, is_decided, decide, check_approval, post_approvals,
}
use hundi.Facilitator.Preserves.{
  Laws, Preserves, Preserves->>=, Preserves-tx, Preserves-moves, Preserves-pure, Preserves-gets,
  Preserves-lift, Preserves-need, Preserves-ensure, Preserves-other,
}

to_state-ne-settling : (d : Decision) → to_state d ≢ SettlementState.settling
to_state-ne-settling Decision.approved e = cc e
to_state-ne-settling Decision.rejected e = cc e

module _ (crypto : Crypto) (P : Db → Type 0) (laws : Laws crypto P) where
  decide-Preserves :
      (mandate_id : Text) (expires_at : ℤ) (approval : Approval)
      → Preserves P (decide crypto mandate_id expires_at approval)
  unfolding decide
  decide-Preserves mandate_id expires_at approval =
      Preserves->>= P _ _ (Preserves-gets P (is_decided approval.settlement_id)) (λ decided.
        Preserves->>= P _ _ (Preserves-ensure P _ (not decided)) (λ _.
          Preserves->>= P (modify _) _
            (Preserves-other crypto P laws _ (λ db. (refl, refl, refl, refl)))
            (λ _.
              Preserves->>= P _ _
                (Preserves-moves P _
                  (laws.move_settlement _ _ _ _ (to_state-ne-settling approval.decision)))
                (λ moved.
                  Preserves->>= P _ _ (Preserves-ensure P _ moved)
                    (λ _. Preserves->>= P _ _ (laws.append _) (λ _. Preserves-pure P _))))))

  check_approval-Preserves :
      (mandate_row : MandateRow) (settlement : SettlementRow) (approval : Approval)
      → Preserves P (check_approval crypto mandate_row settlement approval)
  unfolding check_approval
  check_approval-Preserves mandate_row settlement approval =
      Preserves->>= P _ _ (Preserves-lift P (canonical_json (decision_payload approval))) (λ bytes.
        Preserves->>= P _ _
          (Preserves-lift P
            (verify_mandate_signature crypto bytes approval.sig mandate_row.credential))
          (λ valid. Preserves->>= P _ _ (Preserves-ensure P _ valid) (λ _.
            Preserves->>= P _ _
              (Preserves-lift P
                (compute_mandate_cart_hash crypto mandate_row.intent settlement.cart))
              (λ recomputed. Preserves-ensure P _ _))))

  -- What satisfies the laws is preserved by POST /approvals, whether the request is answered or
  -- refused.
  pub post_approvals-Preserves :
      (now : ℕ) (approval : Approval) → Preserves P (post_approvals crypto now approval)
  unfolding post_approvals
  post_approvals-Preserves now approval =
      Preserves->>= P _ _
        (Preserves-gets P (λ db. find (λ s. s.id === approval.settlement_id) db.settlements))
        (λ found. Preserves->>= P _ _ (Preserves-need P _ found) (λ settlement.
          Preserves->>= P _ _ (Preserves-gets P (λ db. get_mandate_row db settlement.mandate_id))
            (λ registered. Preserves->>= P _ _ (Preserves-need P _ registered) (λ mandate_row.
              Preserves->>= P _ _ (check_approval-Preserves mandate_row settlement approval) (λ _.
                Preserves->>= P _ _
                  (Preserves-tx P _ (decide-Preserves settlement.mandate_id _ approval))
                  (λ _. Preserves-pure P _))))))
