-- ===== src/Facilitator/Routes/Settlements/Replay.antt =====
-- A request to POST /settlements that was answered is answered the same when it comes again.
use hundi.Common.{
  ◌≡◌, ◌≢◌, refl, ◌∙◌, sym, ap, inl, inr, Option, none, some, Text, Result, ok, err, ◌∷◌, ◌++◌, [],
  find, Option-cases, Result-cases, List, Exception, route_error, text, ℕ,
}
use hundi.Core.Value.{Value}
use hundi.Core.CanonicalJson.{canonical_json}
use hundi.Core.Crypto.{Crypto}
use hundi.Core.Signature.{sha256_hex}
use hundi.Facilitator.Db.{IdempotencyRow, Db}
use hundi.Facilitator.Action.{◌>>=◌, after_ok, >>=-returned, tx-returned}
use hundi.Facilitator.Keeps.{Keeps}
use hundi.Facilitator.Idempotency.{
  IdempotencyClaim, claimed, hash_mismatch, in_flight, completed, has_key, claimed_row,
  completed_row, claim_idempotency_key, existing_claim, complete_idempotency_key,
}
use hundi.Facilitator.Idempotency.Replay.{
  claim-found, claim-fresh, claim-mismatch, find-completed, existing-completed,
  existing_claim-ne-claimed,
}
use hundi.Facilitator.SettlementService.{CreateSettlementOutcome}
use hundi.Facilitator.Table.{update}
use hundi.Facilitator.SettlementService.Keys.{create_settlement-Keeps}
use hundi.Facilitator.Routes.Settlements.{
  Answer, persisted_settlement_id, create_and_complete, answer_claim, post_settlements,
}

module _ (crypto : Crypto) (key : Text) (body : Value) where
  -- The key, with what a claim of it by the same request finds.
  abbrev IsAnswered : (hash : Text) → Answer → Db → Type 0
  IsAnswered hash a db = claim_idempotency_key key hash db ≡ (ok (completed a.status a.body), db)

  replays :
      (hash settlement_id : Text) (now : ℕ) (a : Answer) (db : Db)
      → IsAnswered hash a db
      → (claim_idempotency_key key hash >>= answer_claim crypto key settlement_id body now) db
        ≡ (ok (record a { execute = none }), db)
  unfolding answer_claim
  replays hash settlement_id now a db e = after_ok _ _ e refl

  -- A stored answer is given as it is.
  IsAnswered-stored :
      (hash settlement_id : Text) (now : ℕ) (a : Answer) (row : IdempotencyRow) (db db' : Db)
      → (c : IdempotencyClaim) → claim_idempotency_key key hash db ≡ (ok c, db)
      → c ≢ claimed
      → answer_claim crypto key settlement_id body now c db ≡ (ok a, db')
      → IsAnswered hash a db'
  unfolding answer_claim
  IsAnswered-stored hash settlement_id now a row db db' claimed claims other e = absurd (other refl)
  IsAnswered-stored hash settlement_id now a row db db' hash_mismatch claims other e = absurd (cc e)
  IsAnswered-stored hash settlement_id now a row db db' in_flight claims other e = absurd (cc e)
  IsAnswered-stored hash settlement_id now a row db db' (completed status stored) claims other e =
      cc (claims, e)

  abbrev stored_claim : Result Answer → IdempotencyClaim
  stored_claim (ok a) = completed a.status a.body
  stored_claim (err e) = in_flight

  -- The transaction stores the outcome under the key.
  completes :
      (settlement_id : Text) (now : ℕ) (db db' : Db) (out : CreateSettlementOutcome)
      → create_and_complete crypto key settlement_id body now db ≡ (ok out, db')
      → (id : Option Text) × (db'.idempotency_keys
          ≡ update (has_key key) (completed_row id out.status out.body) db.idempotency_keys)
  unfolding create_and_complete complete_idempotency_key Keeps
  completes settlement_id now db db' out e =
      let (result, db1, created, rest) = >>=-returned _ _ db e in
      let (u, db2, wrote, returned) = >>=-returned _ _ db1 rest in
      let kept : db1.idempotency_keys ≡ db.idempotency_keys =
        ap (λ r. r.1.idempotency_keys) (sym created) ∙ create_settlement-Keeps crypto _ _ _ _ db in
      (persisted_settlement_id result.body, cc (wrote, returned, kept))

  IsAnswered-fresh :
      (hash settlement_id : Text) (now : ℕ) (a : Answer) (db db' : Db)
      → find (has_key key) db.idempotency_keys ≡ none
      → answer_claim crypto key settlement_id body now claimed (record db {
        idempotency_keys = db.idempotency_keys ++ claimed_row key hash db.clock ∷ [];
      })
        ≡ (ok a, db')
      → IsAnswered hash a db'
  unfolding answer_claim
  IsAnswered-fresh hash settlement_id now a db db' missing e =
      let db0 = record db {
        idempotency_keys = db.idempotency_keys ++ claimed_row key hash db.clock ∷ [];
      } in
      let (outcome, db2, ran, answered) = >>=-returned _ _ db0 e in
      let (id, stored) =
        completes settlement_id now db0 db2 outcome
          (tx-returned (create_and_complete crypto key settlement_id body now) db0 ran) in
      let found =
        find-completed key hash db.clock id outcome.status outcome.body db.idempotency_keys
          missing in
      claim-found key hash db'
        (completed_row id outcome.status outcome.body (claimed_row key hash db.clock))
        (cc (found, stored, answered))
      ∙ ap (λ c. (ok c, db'))
          (existing-completed key hash db.clock id outcome.status outcome.body
            ∙ ap (λ r. stored_claim r.0) answered)

  answered :
      (hash settlement_id : Text) (now : ℕ) (a : Answer) (db db' : Db)
      → (claim_idempotency_key key hash >>= answer_claim crypto key settlement_id body now) db
        ≡ (ok a, db')
      → IsAnswered hash a db'
  answered hash settlement_id now a db db' e =
      elim (Option-cases (find (has_key key) db.idempotency_keys)) [
        | inl missing ↦
            IsAnswered-fresh hash settlement_id now a db db' missing
              (sym (after_ok _ _ (claim-fresh key hash db missing) refl) ∙ e)
        | inr (row, found) ↦
            let claims = claim-found key hash db row found in
            IsAnswered-stored hash settlement_id now a row db db' (existing_claim hash row) claims
              (existing_claim-ne-claimed hash row) (sym (after_ok _ _ claims refl) ∙ e)
      ]

  refused :
      (hash settlement_id : Text) (now : ℕ) (db : Db)
      → claim_idempotency_key key hash db ≡ (ok hash_mismatch, db)
      → (claim_idempotency_key key hash >>= answer_claim crypto key settlement_id body now) db
        ≡ (err (route_error 409 (text "KEY_REUSED")), db)
  unfolding answer_claim
  refused hash settlement_id now db e = after_ok _ _ e refl

module _ (crypto : Crypto) (c : ℕ) (cs : Text) where
  post_settlements-claims :
      (body : Value) (bytes : List ℕ) (settlement_id : Text) (now : ℕ) (db : Db)
      → canonical_json body ≡ ok bytes
      → post_settlements crypto (some (c ∷ cs)) body settlement_id now db
        ≡ (claim_idempotency_key (c ∷ cs) (sha256_hex crypto bytes)
              >>= answer_claim crypto (c ∷ cs) settlement_id body now)
            db
  unfolding post_settlements
  post_settlements-claims body bytes settlement_id now db e =
      after_ok _ _ refl (after_ok _ _ (ap (λ r. (r, db)) e) refl)

  post_settlements-throws :
      (body : Value) (x : Exception) (settlement_id : Text) (now : ℕ) (db : Db)
      → canonical_json body ≡ err x
      → post_settlements crypto (some (c ∷ cs)) body settlement_id now db ≡ (err x, db)
  unfolding post_settlements ◌>>=◌
  post_settlements-throws body x settlement_id now db e = rw e refl

  -- If a request with a key is answered, the same request that comes again, whatever identifier and
  -- time the server has by then, gets the same status and body, changes nothing, and starts nothing.
  pub post_settlements-replays :
      (body : Value) (settlement_id settlement_id' : Text) (now now' : ℕ) (a : Answer) (db db' : Db)
      → post_settlements crypto (some (c ∷ cs)) body settlement_id now db ≡ (ok a, db')
      → post_settlements crypto (some (c ∷ cs)) body settlement_id' now' db'
        ≡ (ok (record a { execute = none }), db')
  post_settlements-replays body settlement_id settlement_id' now now' a db db' e =
      elim (Result-cases (canonical_json body)) [
        | inl (bytes, q) ↦
            post_settlements-claims body bytes settlement_id' now' db' q
            ∙ replays crypto (c ∷ cs) body (sha256_hex crypto bytes) settlement_id' now' a db' (
                answered crypto (c ∷ cs) body (sha256_hex crypto bytes) settlement_id now a db db'
                  (sym (post_settlements-claims body bytes settlement_id now db q) ∙ e))
        | inr (x, q) ↦ absurd (cc (post_settlements-throws body x settlement_id now db q, e))
      ]

  -- If a request with a key is answered, a different request under the key is refused, unless the two
  -- have one hash.
  pub post_settlements-key_reused :
      (body other : Value) (settlement_id settlement_id' : Text) (now now' : ℕ) (a : Answer)
      (db db' : Db) (bytes bytes' : List ℕ)
      → canonical_json body ≡ ok bytes
      → canonical_json other ≡ ok bytes'
      → sha256_hex crypto bytes ≢ sha256_hex crypto bytes'
      → post_settlements crypto (some (c ∷ cs)) body settlement_id now db ≡ (ok a, db')
      → post_settlements crypto (some (c ∷ cs)) other settlement_id' now' db'
        ≡ (err (route_error 409 (text "KEY_REUSED")), db')
  post_settlements-key_reused body other settlement_id settlement_id' now now' a db db' bytes bytes'
        q q' apart e =
      let first =
        answered crypto (c ∷ cs) body (sha256_hex crypto bytes) settlement_id now a db db'
          (sym (post_settlements-claims body bytes settlement_id now db q) ∙ e) in
      post_settlements-claims other bytes' settlement_id' now' db' q'
      ∙ refused crypto (c ∷ cs) other (sha256_hex crypto bytes') settlement_id' now' db' (
          claim-mismatch (c ∷ cs) (sha256_hex crypto bytes) (sha256_hex crypto bytes') db' a.status
            a.body apart first)
