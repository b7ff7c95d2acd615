-- ===== src/Facilitator/Routes/Revoke/Blocks.antt =====
-- A revoked mandate buys nothing more.
use hundi.Common.{
  refl, ◌≡◌, ◌≢◌, ◌∙◌, sym, ap, ℕ, true, false, Option, some, Text, ok, is_some, arith, Bool,
}
use hundi.Core.Crypto.{Crypto}
use hundi.Core.Value.{Value, text_of}
use hundi.Core.Mandate.{IntentMandate, CartMandate}
use hundi.Core.Verify.{Pass, VerifyCtx, verify_chain}
use hundi.Core.Verify.Checks.{RejectionCode, passed}
use hundi.Core.Verify.Passes.{verify_chain-passes_iff}
use hundi.Facilitator.Db.{MandateRow, Db}
use hundi.Facilitator.Action.{>>=-returned, tx-returned, need-returned, ensure-returned}
use hundi.Facilitator.Table.{find-update, find_holds}
use hundi.Facilitator.Keeps.{Keeps, mandates_of, append_ledger-Keeps}
use hundi.Facilitator.MandateRepo.{get_mandate_row, has_mandate_id}
use hundi.Facilitator.VerifyLogic.{verify_ctx}
use hundi.Facilitator.Routes.Revoke.{revoke, finish, post_revoke}

-- The mandate is registered, and revoked.
IsRevoked : Text → Db → Type 0
IsRevoked mandate_id db =
    (row : MandateRow) × (get_mandate_row db mandate_id ≡ some row)
    × (is_some row.revoked_at ≡ true)

module _ (crypto : Crypto) where
  revoke-IsRevoked :
      (mandate_id : Text) (row : MandateRow) (db db' : Db)
      → get_mandate_row db mandate_id ≡ some row
      → revoke crypto mandate_id db ≡ (ok tt, db')
      → IsRevoked mandate_id db'
  unfolding revoke get_mandate_row Keeps IsRevoked
  revoke-IsRevoked mandate_id row db db' found e =
      let (u, db1, wrote, rest) = >>=-returned _ _ db e in
      let (entry, db2, appended, done) = >>=-returned _ _ db1 rest in
      let f = λ (r : MandateRow). record r { revoked_at = some db.clock } in
      let kept : db2.mandates ≡ db1.mandates =
        ap (λ r. r.1.mandates) (sym appended)
        ∙ append_ledger-Keeps mandates_of (λ _ _. refl) crypto _ db1 in
      let now_found =
        find-update (has_mandate_id mandate_id) f db.mandates found
          (find_holds (has_mandate_id mandate_id) db.mandates found) in
      (f row, cc (now_found, kept, wrote, done), refl)

  ctx-revoked :
      (intent : IntentMandate) (cart : CartMandate) (now : ℕ) (exclude : Option Text) (hash : Text)
      (db : Db) (row : MandateRow)
      → get_mandate_row db (text_of intent.mandate_id) ≡ some row
      → is_some row.revoked_at ≡ true
      → VerifyCtx.revoked (verify_ctx crypto db intent cart now exclude hash) ≡ true
  unfolding verify_ctx
  ctx-revoked intent cart now exclude hash db row found revoked = cc (found, revoked)

  revoked-blocks :
      (intent : IntentMandate) (cart : CartMandate) (now : ℕ) (exclude : Option Text) (hash : Text)
      (db : Db)
      → IsRevoked (text_of intent.mandate_id) db
      → (p : Pass)
      → verify_chain crypto intent cart (verify_ctx crypto db intent cart now exclude hash)
        ≢ passed p
  unfolding IsRevoked
  revoked-blocks intent cart now exclude hash db (row, found, revoked) p e =
      let ctx = verify_ctx crypto db intent cart now exclude hash in
      let live =
        (verify_chain-passes_iff intent cart ctx crypto).0 (p, e) RejectionCode.mandate_revoked
          (omega arith) in
      absurd (cc (live, ctx-revoked intent cart now exclude hash db row found revoked))

  finish-IsRevoked :
      (already : Bool) (mandate_id : Text) (row : MandateRow) (b : Bool) (db db' : Db)
      → get_mandate_row db mandate_id ≡ some row
      → is_some row.revoked_at ≡ already
      → finish crypto mandate_id already db ≡ (ok b, db')
      → IsRevoked mandate_id db'
  unfolding finish IsRevoked
  finish-IsRevoked true mandate_id row b db db' found revoked e = (row, cc (found, e), revoked)
  finish-IsRevoked false mandate_id row b db db' found open_still e =
      let (u, db1, ran, done) = >>=-returned _ _ db e in
      let (row', found', revoked) =
        revoke-IsRevoked mandate_id row db db1 found
          (tx-returned (revoke crypto mandate_id) db ran) in
      (row', cc (found', done), revoked)

  post_revoke-IsRevoked :
      (mandate_id : Text) (sig : Value) (b : Bool) (db db' : Db)
      → post_revoke crypto mandate_id sig db ≡ (ok b, db')
      → IsRevoked mandate_id db'
  unfolding post_revoke
  post_revoke-IsRevoked mandate_id sig b db db' e =
      let (registered, db1, q1, r1) = >>=-returned _ _ db e in
      let (row, db2, q2, r2) = >>=-returned _ _ db1 r1 in
      let (bytes, db3, q3, r3) = >>=-returned _ _ db2 r2 in
      let (valid, db4, q4, r4) = >>=-returned _ _ db3 r3 in
      let (u, db5, q5, r5) = >>=-returned _ _ db4 r4 in
      let (is_row, same2) = need-returned _ registered db1 q2 in
      let (is_valid, same5) = ensure-returned _ valid db4 q5 in
      let same : db5 ≡ db = cc (q1, same2, q3, q4, same5) in
      finish-IsRevoked (is_some row.revoked_at) mandate_id row b db5 db' (cc (q1, is_row, same))
        refl r5

  -- Once POST /revoke has answered, the gate passes no cart of the mandate in the database that it
  -- leaves, whatever the intent that is presented under its id, the cart and the time.
  pub post_revoke-blocks :
      (sig : Value) (b : Bool) (db db' : Db) (intent : IntentMandate) (cart : CartMandate) (now : ℕ)
      (exclude : Option Text) (hash : Text) (p : Pass)
      → post_revoke crypto (text_of intent.mandate_id) sig db ≡ (ok b, db')
      → verify_chain crypto intent cart (verify_ctx crypto db' intent cart now exclude hash)
        ≢ passed p
  post_revoke-blocks sig b db db' intent cart now exclude hash p e =
      revoked-blocks intent cart now exclude hash db'
        (post_revoke-IsRevoked (text_of intent.mandate_id) sig b db db' e) p
