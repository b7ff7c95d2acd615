-- ===== src/Facilitator/Preserves/Mandates.antt =====
-- What satisfies the laws is preserved by POST /mandates and POST /refund of
-- packages/facilitator/src/routes/.
use hundi.Common.{
  true, false, text, route_error, Bool, ◌++◌, ◌∷◌, [], Constraint, sqlite_constraint, ℕ, refl, ◌≡◌,
  arith, not, any, find, ◌===◌, ◌&&◌, Text, Result, ok, err, Option, none, some, Exception,
}
use hundi.Core.Crypto.{Crypto}
use hundi.Core.Value.{text_of}
use hundi.Core.Mandate.{IntentMandate, intent_signing_bytes}
use hundi.Core.Signature.{Credential, verify_mandate_signature}
use hundi.Facilitator.Db.{Db, SettlementRow, LedgerRow}
use hundi.Facilitator.Action.{◌>>◌, ensure, ◌>>=◌, gets, modify}
use hundi.Facilitator.StateMachine.{is_captured}
use hundi.Facilitator.Routes.Mandates.{
  mandate_row, allowance_row, is_unused, consume_token, mandate_exists, insert_mandate,
  bind_credential, register_mandate, post_mandates,
}
use hundi.Facilitator.Routes.Refund.{
  find_issued_refund, payment_of, receive_refund, issue_refund, refund_captured, answer_refund,
  post_refund,
}
use hundi.Facilitator.Preserves.{
  Laws, IsUntouched, Preserves, Preserves->>=, Preserves-tx, Preserves-pure, Preserves-gets,
  Preserves-lift, Preserves-need, Preserves-ensure, Preserves-other,
}

module _ (crypto : Crypto) (P : Db → Type 0) (laws : Laws crypto P) where
  consume_token-Preserves : (token : Text) → Preserves P (consume_token token)
  unfolding consume_token
  consume_token-Preserves token =
      Preserves->>= P _ _ (Preserves-gets P (λ db. any (is_unused token) db.ceremony_tokens))
        (λ valid.
          Preserves->>= P _ _ (Preserves-ensure P _ valid)
            (λ _. Preserves-other crypto P laws _ (λ db. (refl, refl, refl, refl))))

  module _ (intent : IntentMandate) (hash : Text) (credential : Credential) where
    -- From the row of the mandate on.
    allowance-Preserves : Preserves P (
        gets (λ db. any (λ row. row.mandate_id === text_of intent.mandate_id) db.allowances)
        >>= λ has_allowance.
            ensure (sqlite_constraint Constraint.primary_key) (not has_allowance)
            >> modify (λ db. record db { allowances = db.allowances ++ allowance_row intent ∷ [] }))
    allowance-Preserves =
        Preserves->>= P _ _
          (Preserves-gets P
            (λ db. any (λ row. row.mandate_id === text_of intent.mandate_id) db.allowances))
          (λ has_allowance.
            Preserves->>= P _ _ (Preserves-ensure P _ (not has_allowance))
              (λ _. Preserves-other crypto P laws _ (λ db. (refl, refl, refl, refl))))

    inserts-Preserves :
        (db : Db) (exists : Bool)
        → mandate_exists (text_of intent.mandate_id) hash db ≡ exists
        → P db
        → P
            ((ensure (route_error 409 (text "MANDATE_EXISTS")) (not exists)
                >> (modify (λ db. record db {
                  mandates = db.mandates ++ mandate_row intent hash credential db.clock ∷ [];
                })
                    >> (gets (λ db.
                          any (λ row. row.mandate_id === text_of intent.mandate_id) db.allowances)
                        >>= λ has_allowance.
                            ensure (sqlite_constraint Constraint.primary_key) (not has_allowance)
                            >> modify (λ db. record db {
                              allowances = db.allowances ++ allowance_row intent ∷ [];
                            }))))
              db).1
    unfolding ◌>>=◌ Preserves
    inserts-Preserves db true e i = i
    inserts-Preserves db false e i =
        allowance-Preserves _ (laws.insert_mandate intent hash credential db e i)

    insert_mandate-Preserves : Preserves P (insert_mandate intent hash credential)
    unfolding insert_mandate Preserves ◌>>=◌
    insert_mandate-Preserves db i = inserts-Preserves db _ refl i

  bind_credential-Preserves :
      (intent : IntentMandate) (credential : Credential)
      → Preserves P (bind_credential crypto intent credential)
  unfolding bind_credential
  bind_credential-Preserves intent credential =
      Preserves->>= P _ _ (Preserves-lift P (intent_signing_bytes intent)) (λ bytes.
        Preserves->>= P _ _
          (Preserves-lift P (verify_mandate_signature crypto bytes intent.sig credential))
          (λ valid. Preserves->>= P _ _ (Preserves-ensure P _ valid) (λ _.
            Preserves->>= P _ _ (insert_mandate-Preserves intent _ credential)
              (λ _. Preserves->>= P _ _ (laws.append _) (λ _. Preserves-pure P _)))))

  -- What satisfies the laws is preserved by POST /mandates, whether the request is answered or
  -- refused.
  pub post_mandates-Preserves :
      (intent : IntentMandate) (credential : Credential) (ceremony_token : Text)
      → Preserves P (post_mandates crypto intent credential ceremony_token)
  unfolding post_mandates register_mandate
  post_mandates-Preserves intent credential ceremony_token = Preserves-tx P _ (
      Preserves->>= P _ _ (consume_token-Preserves ceremony_token)
        (λ _. bind_credential-Preserves intent credential))

  receive_refund-Preserves : (reply : Result Text) → Preserves P (receive_refund reply)
  receive_refund-Preserves (ok refund_id) = Preserves-pure P refund_id
  receive_refund-Preserves (err e) = Preserves-other crypto P laws (receive_refund (err e)) (go e)
    where
      go : (e : Exception) (db : Db) → IsUntouched db (receive_refund (err e) db).1
      go e db = ground arith

  issue_refund-Preserves :
      (settlement_id attempt_id payment_id refund_id : Text) (amount_paise : ℕ)
      → Preserves P (issue_refund crypto settlement_id attempt_id payment_id refund_id amount_paise)
  unfolding issue_refund
  issue_refund-Preserves settlement_id attempt_id payment_id refund_id amount_paise =
      Preserves->>= P _ _ (laws.append _) (λ _. Preserves-pure P _)

  refund_captured-Preserves :
      (settlement : SettlementRow) (reply : Result Text)
      → Preserves P (refund_captured crypto settlement reply)
  unfolding refund_captured
  refund_captured-Preserves settlement reply = Preserves->>= P _ _ (Preserves-ensure P _ _) (λ _.
      Preserves->>= P _ _
        (Preserves-gets P (λ db.
          find (λ a. (a.settlement_id === settlement.id) && is_captured a.state) db.attempts))
        (λ attempt. Preserves->>= P _ _ (Preserves-need P _ (payment_of attempt)) (λ payment_id.
          Preserves->>= P _ _ (receive_refund-Preserves reply) (λ refund_id.
            Preserves->>= P _ _
              (Preserves-tx P _ (issue_refund-Preserves settlement.id _ payment_id refund_id _))
              (λ _. Preserves-pure P _)))))

  answer_refund-Preserves :
      (settlement : SettlementRow) (issued : Option LedgerRow) (reply : Result Text)
      → Preserves P (answer_refund crypto settlement issued reply)
  unfolding answer_refund
  answer_refund-Preserves settlement (some row) reply = Preserves-pure P _
  answer_refund-Preserves settlement none reply = refund_captured-Preserves settlement reply

  -- What satisfies the laws is preserved by POST /refund, whether the request is answered or
  -- refused.
  pub post_refund-Preserves :
      (settlement_id : Text) (reply : Result Text)
      → Preserves P (post_refund crypto settlement_id reply)
  unfolding post_refund
  post_refund-Preserves settlement_id reply =
      Preserves->>= P _ _
        (Preserves-gets P (λ db. find (λ s. s.id === settlement_id) db.settlements))
        (λ found. Preserves->>= P _ _ (Preserves-need P _ found) (λ settlement.
          Preserves->>= P _ _ (Preserves-gets P (find_issued_refund settlement_id))
            (λ issued. answer_refund-Preserves settlement issued reply)))
