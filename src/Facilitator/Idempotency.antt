-- ===== src/Facilitator/Idempotency.antt =====
-- packages/facilitator/src/idempotency.ts: the claim of a key by an INSERT, and its completion.
pub mod Replay
use hundi.Common.{ℕ, Bool, Option, none, some, ◌∷◌, [], ◌++◌, Text, ◌===◌, find, if◌then◌else◌, not}
use hundi.Facilitator.Db.{IdempotencyRow, ResponseBody}
use hundi.Facilitator.Action.{Action, pure, modify, ◌>>◌}
use hundi.Facilitator.Table.{update}

pub data IdempotencyClaim : Type 0 where
  claimed hash_mismatch in_flight : IdempotencyClaim
  completed : (status : ℕ) (body : ResponseBody) → IdempotencyClaim

abbrev pub has_key : Text → IdempotencyRow → Bool
has_key key row = row.key === key

-- The row of a fresh claim.
abbrev pub claimed_row : Text → Text → ℕ → IdempotencyRow
claimed_row key request_hash_hex clock = record {
  key = key;
  request_hash_hex = request_hash_hex;
  settlement_id = none;
  locked_at = some clock;
  response_status = none;
  response_body = none;
}

-- What a stored response replays.
abbrev replay : Option ℕ → Option ResponseBody → IdempotencyClaim
replay none body = in_flight
replay (some status) none = in_flight
replay (some status) (some body) = completed status body

-- The claim that the row already under the key gives.
unfoldable pub existing_claim : Text → IdempotencyRow → IdempotencyClaim
existing_claim request_hash_hex row =
    if not (row.request_hash_hex === request_hash_hex)
    then hash_mismatch
    else replay row.response_status row.response_body

-- The primary key makes the INSERT fail exactly if a row with the key exists.
abbrev claim_over : (key request_hash_hex : Text) → Option IdempotencyRow → Action IdempotencyClaim
claim_over key request_hash_hex (some row) = pure (existing_claim request_hash_hex row)
claim_over key request_hash_hex none = do
  modify (λ db. record db {
    idempotency_keys = db.idempotency_keys ++ claimed_row key request_hash_hex db.clock ∷ [];
  })
  pure claimed

unfoldable pub claim_idempotency_key : (key request_hash_hex : Text) → Action IdempotencyClaim
claim_idempotency_key key request_hash_hex =
    λ db. claim_over key request_hash_hex (find (has_key key) db.idempotency_keys) db

abbrev pub completed_row : Option Text → ℕ → ResponseBody → IdempotencyRow → IdempotencyRow
completed_row settlement_id status body row = record row {
  settlement_id = settlement_id;
  response_status = some status;
  response_body = some body;
}

unfoldable pub complete_idempotency_key :
    (key : Text)
    → (settlement_id : Option Text) → (response_status : ℕ) → (response_body : ResponseBody)
    → Action (Unit {0})
complete_idempotency_key key settlement_id response_status response_body = modify (λ db. record db {
  idempotency_keys =
      update (has_key key) (completed_row settlement_id response_status response_body)
        db.idempotency_keys;
})
