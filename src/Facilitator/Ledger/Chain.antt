-- ===== src/Facilitator/Ledger/Chain.antt =====
-- An append extends a chain that verifies to one that verifies.
use hundi.Common.{
  ℕ, suc, ◌+◌, ◌≡◌, ◌∙◌, inl, inr, Result-cases, Exception, List, [], ◌∷◌, ◌++◌, Text, length, ok,
  err, arith,
}
use hundi.Core.Crypto.{Crypto}
use hundi.Core.CanonicalJson.{canonical_json}
use hundi.Core.Signature.{sha256_hex}
use hundi.Facilitator.Db.{LedgerRow, Db}
use hundi.Facilitator.Action.{◌>>=◌}
use hundi.Facilitator.Ledger.{
  AppendLedgerInput, intact, hashed_fields, genesis_hash, head_from, current_head, new_row,
  append_ledger, verify_from, verify_ledger,
}

module _ (crypto : Crypto) where
  verify_from-append :
      (rows more : List LedgerRow) (prev : Text) (count : ℕ) {head : Text} {n : ℕ}
      → verify_from crypto prev count rows ≡ ok (intact head n)
      → verify_from crypto prev count (rows ++ more) ≡ verify_from crypto head n more
  unfolding verify_from
  verify_from-append [] more prev count e = ground arith
  verify_from-append (row ∷ rows) more prev count {head} {n} e =
      ground (arith, verify_from-append rows more row.row_hash (suc count) {head = head} {n = n})

  verify_from-head :
      (rows : List LedgerRow) (prev : Text) (count : ℕ) {head : Text} {n : ℕ}
      → verify_from crypto prev count rows ≡ ok (intact head n)
      → (head ≡ head_from prev rows) × (n ≡ count + length rows)
  unfolding verify_from head_from
  verify_from-head [] prev count e = ground arith
  verify_from-head (row ∷ rows) prev count {head} {n} e =
      ground (arith, verify_from-head rows row.row_hash (suc count) {head = head} {n = n})

  verify_from-new_row :
      (rows : List LedgerRow) (input : AppendLedgerInput) (prev : Text) (count : ℕ) (bytes : List ℕ)
      → canonical_json
          (hashed_fields input.event_type input.settlement_id input.actor input.payload prev)
        ≡ ok bytes
      → verify_from crypto prev count (new_row rows input prev (sha256_hex crypto bytes) ∷ [])
        ≡ ok (intact (sha256_hex crypto bytes) (suc count))
  unfolding verify_from
  verify_from-new_row rows input prev count bytes e = ground arith

  -- What an append does: it takes the hash over the head, and puts one row at the end.
  pub append_ledger_lem :
      (input : AppendLedgerInput) (db : Db) (bytes : List ℕ)
      → canonical_json (
          hashed_fields input.event_type input.settlement_id input.actor input.payload
            (current_head db))
        ≡ ok bytes
      → append_ledger crypto input db ≡ (
        ok (suc (length db.ledger), sha256_hex crypto bytes),
        record db {
          ledger =
              db.ledger ++ new_row db.ledger input (current_head db) (sha256_hex crypto bytes) ∷ [];
        },
      )
  unfolding append_ledger ◌>>=◌
  append_ledger_lem input db bytes e = rw e

  pub append_ledger_err :
      (input : AppendLedgerInput) (db : Db) (x : Exception)
      → canonical_json (
          hashed_fields input.event_type input.settlement_id input.actor input.payload
            (current_head db))
        ≡ err x
      → append_ledger crypto input db ≡ (err x, db)
  unfolding append_ledger ◌>>=◌
  append_ledger_err input db x e = rw e

  intact_after :
      (input : AppendLedgerInput) (db : Db) (bytes : List ℕ) {head : Text} {n : ℕ}
      → verify_ledger crypto db ≡ ok (intact head n)
      → canonical_json (
          hashed_fields input.event_type input.settlement_id input.actor input.payload
            (current_head db))
        ≡ ok bytes
      → verify_ledger crypto (record db {
        ledger =
            db.ledger ++ new_row db.ledger input (current_head db) (sha256_hex crypto bytes) ∷ [];
      })
        ≡ ok (intact (sha256_hex crypto bytes) (suc n))
  unfolding verify_ledger current_head
  intact_after input db bytes {head} {n} v e =
      let (same, counted) = verify_from-head db.ledger genesis_hash 0 v in
      verify_from-append db.ledger _ genesis_hash 0 v
      ∙ (rw same (verify_from-new_row db.ledger input (head_from genesis_hash db.ledger) n bytes e))

  -- If the ledger verifies, an append that returns leaves a ledger that verifies: its head is the
  -- returned hash, and it is longer by one.
  pub append_ledger-intact :
      (input : AppendLedgerInput) (db db' : Db) {head : Text} {n : ℕ} {seq : ℕ} {row_hash : Text}
      → verify_ledger crypto db ≡ ok (intact head n)
      → append_ledger crypto input db ≡ (ok (seq, row_hash), db')
      → verify_ledger crypto db' ≡ ok (intact row_hash (suc n))
  append_ledger-intact input db db' {head} {n} {seq} {row_hash} v e =
      elim (Result-cases (
        canonical_json (
          hashed_fields input.event_type input.settlement_id input.actor input.payload
            (current_head db)))) [
              | inl (bytes, q) ↦
                  cc (append_ledger_lem input db bytes q, e, intact_after input db bytes v q)
              | inr (x, q) ↦ cc (append_ledger_err input db x q)
            ]
