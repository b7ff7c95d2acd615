-- ===== src/Facilitator/Routes/Approvals/Once.antt =====
-- A settlement gets one decision: packages/facilitator/src/routes/approvals.ts.
use hundi.Common.{
  ◌≡◌, ◌≢◌, ◌∙◌, sym, ap, refl, true, false, Bool, not, any, ◌++◌, ◌∷◌, [], List, ℕ, ℤ, Text, ok,
  arith, ◌===◌,
}
use hundi.Core.Crypto.{Crypto}
use hundi.Facilitator.Db.{MandateRow, SettlementRow, Db}
use hundi.Facilitator.Action.{>>=-returned, tx-returned, ensure-returned, need-returned}
use hundi.Facilitator.Keeps.{
  Keeps, approvals_of, still-Keeps, ensure-Keeps, Keeps->>=, append_ledger-Keeps,
  transition_settlement-Keeps-approvals,
}
use hundi.Facilitator.Routes.Approvals.{
  Approval, Decided, is_decided, approval_row, decide, check_approval, post_approvals,
}

any-append_hit :
    {A : Type 0} (p : A → Bool) (rs : List A) (r : A) → p r ≡ true → any p (rs ++ r ∷ []) ≡ true
any-append_hit p [] r h = ground arith
any-append_hit p (s ∷ rs) r h = ground (arith, any-append_hit p rs r)

same_text : (s : Text) → (s === s) ≡ true
same_text s = ground arith

not-true : (b : Bool) → not b ≡ true → b ≡ false
not-true b h = ground arith

module _ (crypto : Crypto) where
  -- The transaction goes through only without a decision, and leaves one.
  decide-once :
      (mandate_id : Text) (expires_at : ℤ) (approval : Approval) (db db' : Db)
      → decide crypto mandate_id expires_at approval db ≡ (ok tt, db')
      → (is_decided approval.settlement_id db ≡ false)
        × (is_decided approval.settlement_id db' ≡ true)
  unfolding decide Keeps
  decide-once mandate_id expires_at approval db db' e =
      let (decided, db1, q1, r1) = >>=-returned _ _ db e in
      let (u2, db2, q2, r2) = >>=-returned _ _ db1 r1 in
      let (u3, db3, q3, r3) = >>=-returned _ _ db2 r2 in
      let (moved, db4, q4, r4) = >>=-returned _ _ db3 r3 in
      let (u5, db5, q5, r5) = >>=-returned _ _ db4 r4 in
      let (entry, db6, q6, r6) = >>=-returned _ _ db5 r5 in
      let (was_open, same2) = ensure-returned _ (not decided) db1 q2 in
      let (was_moved, same5) = ensure-returned _ moved db4 q5 in
      let kept4 : db4.approvals ≡ db3.approvals =
        ap (λ r. r.1.approvals) (sym q4)
        ∙ transition_settlement-Keeps-approvals approval.settlement_id _ _ _ db3 in
      let kept6 : db6.approvals ≡ db5.approvals =
        ap (λ r. r.1.approvals) (sym q6)
        ∙ append_ledger-Keeps approvals_of (λ _ _. refl) crypto _ db5 in
      let stored : db'.approvals ≡ db2.approvals ++ approval_row approval expires_at ∷ [] =
        cc (kept4, kept6, same5, q3, r6) in
      (
        cc (q1, not-true decided was_open),
        ap (any (λ a. a.settlement_id === approval.settlement_id)) stored
            ∙ any-append_hit (λ a. a.settlement_id === approval.settlement_id) db2.approvals
                (approval_row approval expires_at) (same_text approval.settlement_id),
      )

  check_approval-Keeps :
      (mandate_row : MandateRow) (settlement : SettlementRow) (approval : Approval)
      → Keeps approvals_of (check_approval crypto mandate_row settlement approval)
  unfolding check_approval
  check_approval-Keeps mandate_row settlement approval =
      Keeps->>= approvals_of _ _ (still-Keeps approvals_of (λ db. _)) (λ bytes.
        Keeps->>= approvals_of _ _ (still-Keeps approvals_of (λ db. _)) (λ valid.
          Keeps->>= approvals_of _ _ (ensure-Keeps approvals_of _ valid) (λ _.
            Keeps->>= approvals_of _ _ (still-Keeps approvals_of (λ db. _))
              (λ hash. ensure-Keeps approvals_of _ _))))

  -- A request that is granted found no decision, and leaves one.
  post_approvals-once :
      (now : ℕ) (approval : Approval) (d : Decided) (db db' : Db)
      → post_approvals crypto now approval db ≡ (ok d, db')
      → (is_decided approval.settlement_id db ≡ false)
        × (is_decided approval.settlement_id db' ≡ true)
  unfolding post_approvals Keeps
  post_approvals-once now approval d db db' e =
      let (found, db1, q1, r1) = >>=-returned _ _ db e in
      let (settlement, db2, q2, r2) = >>=-returned _ _ db1 r1 in
      let (registered, db3, q3, r3) = >>=-returned _ _ db2 r2 in
      let (mandate_row, db4, q4, r4) = >>=-returned _ _ db3 r3 in
      let (u5, db5, q5, r5) = >>=-returned _ _ db4 r4 in
      let (u6, db6, q6, r6) = >>=-returned _ _ db5 r5 in
      let (is_found, same2) = need-returned _ found db1 q2 in
      let (is_registered, same4) = need-returned _ registered db3 q4 in
      let kept : db5.approvals ≡ db4.approvals =
        ap (λ r. r.1.approvals) (sym q5)
        ∙ check_approval-Keeps mandate_row settlement approval db4 in
      let (was_open, closed) =
        decide-once _ _ approval db5 db6 (tx-returned (decide crypto _ _ approval) db5 q6) in
      (
        cc (was_open, kept, q1, same2, q3, same4),
        ap (is_decided approval.settlement_id) (sym (ap (λ r. r.1) r6)) ∙ closed,
      )

  -- Once POST /approvals has granted a decision on a settlement, no later request on it is granted
  -- in the database that this leaves, whatever the time, the decision and the signature.
  pub post_approvals-decides_once :
      (now now' : ℕ) (approval approval' : Approval) (d d' : Decided) (db db' db'' : Db)
      → post_approvals crypto now approval db ≡ (ok d, db')
      → approval'.settlement_id ≡ approval.settlement_id
      → post_approvals crypto now' approval' db' ≢ (ok d', db'')
  post_approvals-decides_once now now' approval approval' d d' db db' db'' e same e' =
      let (_, closed) = post_approvals-once now approval d db db' e in
      let (was_open, _) = post_approvals-once now' approval' d' db' db'' e' in
      absurd (cc (closed, was_open, same))
