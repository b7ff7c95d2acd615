-- ===== src/Facilitator/Ledger.antt =====
-- packages/facilitator/src/ledger.ts: the append-only chain of hashes. The payload column reads
-- back, through JSON.parse, as the value that was appended.
pub mod Chain
pub mod Returns
use hundi.Common.{
  ℕ, suc, ◌≡◌, refl, true, false, Option, none, some, List, [], ◌∷◌, ◌++◌, Text, text, length,
  Result, ok, err, if◌then◌else◌, ◌===◌, not,
}
use hundi.Core.Value.{Value, null, str, obj, end, field}
use hundi.Core.CanonicalJson.{canonical_json}
use hundi.Core.Crypto.{Crypto}
use hundi.Core.Signature.{sha256_hex}
use hundi.Facilitator.Db.{LedgerRow, Db}
use hundi.Facilitator.Action.{Action, pure, throw, gets, lift, modify, ◌>>=◌, ◌>>◌}

abbrev pub genesis_hash : Text
genesis_hash = text "HUNDI_GENESIS"

-- The `row_hash` of the last row.
unfoldable pub head_from : Text → List LedgerRow → Text
head_from head [] = head
head_from head (row ∷ rows) = head_from row.row_hash rows

unfoldable pub current_head : Db → Text
unfolding head_from
current_head db = head_from genesis_hash db.ledger

abbrev pub text_or_null : Option Text → Value
text_or_null none = null
text_or_null (some s) = str s

-- What is hashed.
abbrev pub hashed_fields :
    (event_type : Text) (settlement_id : Option Text) (actor : Text) (payload : Value)
    (prev_hash : Text)
    → Value
hashed_fields event_type settlement_id actor payload prev_hash = obj (
    field (text "event_type") (str event_type) (
      field (text "settlement_id") (text_or_null settlement_id) (
        field (text "actor") (str actor)
          (field (text "payload") payload (field (text "prev_hash") (str prev_hash) end)))))

pub record AppendLedgerInput : Type 0 where
  pub event_type : Text
  pub settlement_id : Option Text
  pub actor : Text
  pub payload : Value

pub data VerifyLedgerResult : Type 0 where
  intact : (head : Text) (count : ℕ) → VerifyLedgerResult
  broken : (seq : ℕ) → VerifyLedgerResult

-- The row that an append writes: no row is ever deleted, so AUTOINCREMENT counts the rows.
abbrev pub new_row : List LedgerRow → AppendLedgerInput → (prev_hash row_hash : Text) → LedgerRow
new_row rows input prev_hash row_hash = record {
  seq = suc (length rows);
  event_type = input.event_type;
  settlement_id = input.settlement_id;
  actor = input.actor;
  payload = input.payload;
  prev_hash = prev_hash;
  row_hash = row_hash;
}

module _ (crypto : Crypto) where
  unfoldable pub append_ledger : AppendLedgerInput → Action (ℕ × Text)
  unfolding current_head
  append_ledger input = do
    prev_hash ← gets current_head
    bytes ← lift (
        canonical_json
          (hashed_fields input.event_type input.settlement_id input.actor input.payload prev_hash))
    rows ← gets (λ db. db.ledger)
    let row_hash = sha256_hex crypto bytes
    modify (λ db. record db { ledger = rows ++ new_row rows input prev_hash row_hash ∷ [] })
    pure (suc (length rows), row_hash)

  -- The loop of `verifyLedger`; `expected_prev` is the hash of the row before.
  unfoldable pub verify_from :
      (expected_prev : Text) (count : ℕ) → List LedgerRow → Result VerifyLedgerResult
  verify_from expected_prev count [] = ok (intact expected_prev count)
  verify_from expected_prev count (row ∷ rows) =
      let rest = verify_from row.row_hash (suc count) rows in
      if not (row.prev_hash === expected_prev)
      then ok (broken row.seq)
      else elim (canonical_json
          (hashed_fields row.event_type row.settlement_id row.actor row.payload row.prev_hash)) [
            | ok bytes ↦
                if not (sha256_hex crypto bytes === row.row_hash) then ok (broken row.seq) else rest
            | err e ↦ err e
          ]

  unfoldable pub verify_ledger : Db → Result VerifyLedgerResult
  unfolding verify_from
  verify_ledger db = verify_from genesis_hash 0 db.ledger
