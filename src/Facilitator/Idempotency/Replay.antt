-- ===== src/Facilitator/Idempotency/Replay.antt =====
-- What a claim finds, before and after its key was completed.
use hundi.Common.{
  inl, inr, Option-cases, ◌≡◌, ◌≢◌, refl, ◌∙◌, Option, none, some, Text, ok, List, [], ◌∷◌, ◌++◌,
  find, arith, ap, ℕ,
}
use hundi.Facilitator.Db.{IdempotencyRow, ResponseBody, Db}
use hundi.Facilitator.Action.{◌>>=◌}
use hundi.Facilitator.Table.{update}
use hundi.Facilitator.Idempotency.{
  claimed, hash_mismatch, completed, has_key, claimed_row, completed_row, claim_idempotency_key,
  existing_claim,
}

pub claim-found :
    (key hash : Text) (db : Db) (row : IdempotencyRow)
    → find (has_key key) db.idempotency_keys ≡ some row
    → claim_idempotency_key key hash db ≡ (ok (existing_claim hash row), db)
unfolding claim_idempotency_key
claim-found key hash db row e = rw e refl

pub claim-fresh :
    (key hash : Text) (db : Db)
    → find (has_key key) db.idempotency_keys ≡ none
    → claim_idempotency_key key hash db ≡ (
      ok claimed,
      record db { idempotency_keys = db.idempotency_keys ++ claimed_row key hash db.clock ∷ [] },
    )
unfolding claim_idempotency_key ◌>>=◌
claim-fresh key hash db e = rw e refl

-- The claimed row, after its completion.
pub find-completed :
    (key hash : Text) (clock : ℕ) (id : Option Text) (status : ℕ) (body : ResponseBody)
    (rows : List IdempotencyRow)
    → find (has_key key) rows ≡ none
    → find (has_key key) (
        update
          (has_key key)
          (completed_row id status body)
          (rows ++ claimed_row key hash clock ∷ []))
      ≡ some (completed_row id status body (claimed_row key hash clock))
unfolding update
find-completed key hash clock id status body [] e = ground arith
find-completed key hash clock id status body (row ∷ rows) e =
    ground (arith, find-completed key hash clock id status body rows)

pub existing-completed :
    (key hash : Text) (clock : ℕ) (id : Option Text) (status : ℕ) (body : ResponseBody)
    → existing_claim hash (completed_row id status body (claimed_row key hash clock))
      ≡ completed status body
unfolding existing_claim
existing-completed key hash clock id status body = ground arith

pub existing_claim-ne-claimed :
    (hash : Text) (row : IdempotencyRow) → existing_claim hash row ≢ claimed
unfolding existing_claim
existing_claim-ne-claimed hash row e = ground arith

existing_claim-mismatch :
    (hash hash' : Text) (row : IdempotencyRow) (status : ℕ) (body : ResponseBody)
    → hash ≢ hash'
    → existing_claim hash row ≡ completed status body
    → existing_claim hash' row ≡ hash_mismatch
unfolding existing_claim
existing_claim-mismatch hash hash' row status body other e = ground arith

-- A key that answers one request answers no request with another hash.
pub claim-mismatch :
    (key hash hash' : Text) (db : Db) (status : ℕ) (body : ResponseBody)
    → hash ≢ hash'
    → claim_idempotency_key key hash db ≡ (ok (completed status body), db)
    → claim_idempotency_key key hash' db ≡ (ok hash_mismatch, db)
claim-mismatch key hash hash' db status body other e =
    elim (Option-cases (find (has_key key) db.idempotency_keys)) [
      | inl missing ↦ absurd (cc (claim-fresh key hash db missing, e))
      | inr (row, found) ↦
          claim-found key hash' db row found
          ∙ ap (λ c. (ok c, db))
              (existing_claim-mismatch hash hash' row status body other
                (cc (claim-found key hash db row found, e)))
    ]
