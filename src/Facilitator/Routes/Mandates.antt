-- ===== src/Facilitator/Routes/Mandates.antt =====
-- packages/facilitator/src/routes/mandates.ts and ceremony-tokens.ts: a token is minted, and one
-- registration consumes it. `token` of the mint is what randomBytes gave.
pub mod Token
use hundi.Common.{
  ℕ, Bool, true, false, not, ◌&&◌, ◌||◌, Option, none, some, List, [], ◌∷◌, ◌++◌, Text, text, any,
  find, is_some, ◌===◌, if◌then◌else◌, Constraint, sqlite_constraint, route_error,
}
use hundi.Core.Value.{Value, str, obj, end, field, nat_of, int_of, text_of}
use hundi.Core.Crypto.{Crypto}
use hundi.Core.Mandate.{IntentMandate, intent_signing_bytes}
use hundi.Core.Signature.{Credential, sha256_hex, verify_mandate_signature}
use hundi.Facilitator.Db.{MandateRow, AllowanceRow, TokenRow, Db}
use hundi.Facilitator.Action.{
  Action, pure, throw, gets, lift, modify, tx, need, ensure, ◌>>=◌, ◌>>◌,
}
use hundi.Facilitator.Table.{update}
use hundi.Facilitator.Ledger.{append_ledger}

-- POST /ceremony-tokens
unfoldable pub post_ceremony_tokens : (token : Text) → Action Text
post_ceremony_tokens token = do
  taken ← gets (λ db. any (λ row. row.token === token) db.ceremony_tokens)
  ensure (sqlite_constraint Constraint.primary_key) (not taken)
  modify (λ db. record db {
    ceremony_tokens = db.ceremony_tokens ++ record { token = token; used_at = none } ∷ [];
  })
  pure token

-- `token = ? AND used_at IS NULL`
abbrev pub is_unused : Text → TokenRow → Bool
is_unused token row = (row.token === token) && not (is_some row.used_at)

abbrev pub use_token : ℕ → TokenRow → TokenRow
use_token clock row = record row { used_at = some clock }

unfoldable pub consume_token : Text → Action (Unit {0})
consume_token token = do
  valid ← gets (λ db. any (is_unused token) db.ceremony_tokens)
  ensure (route_error 401 (text "TOKEN_INVALID")) valid
  modify (λ db. record db {
    ceremony_tokens = update (is_unused token) (use_token db.clock) db.ceremony_tokens;
  })

abbrev pub mandate_exists : (mandate_id intent_hash_hex : Text) → Db → Bool
mandate_exists mandate_id intent_hash_hex db =
    any (λ row. (row.mandate_id === mandate_id) || (row.intent_hash_hex === intent_hash_hex))
      db.mandates

abbrev pub mandate_row : IntentMandate → Text → Credential → ℕ → MandateRow
mandate_row intent intent_hash_hex credential clock = record {
  mandate_id = text_of intent.mandate_id;
  intent = intent;
  intent_hash_hex = intent_hash_hex;
  credential = credential;
  revoked_at = none;
  created_at = clock;
}

abbrev pub allowance_row : IntentMandate → AllowanceRow
allowance_row intent = record {
  mandate_id = text_of intent.mandate_id;
  max_amount_paise = nat_of intent.ceiling_paise;
  expires_at = int_of intent.expires_at;
}

-- The two INSERTs.
unfoldable pub insert_mandate :
    IntentMandate → (intent_hash_hex : Text) → Credential → Action (Unit {0})
insert_mandate intent intent_hash_hex credential = do
  exists ← gets (mandate_exists (text_of intent.mandate_id) intent_hash_hex)
  ensure (route_error 409 (text "MANDATE_EXISTS")) (not exists)
  modify (λ db. record db {
    mandates = db.mandates ++ mandate_row intent intent_hash_hex credential db.clock ∷ [];
  })
  has_allowance ←
      gets (λ db. any (λ row. row.mandate_id === text_of intent.mandate_id) db.allowances)
  ensure (sqlite_constraint Constraint.primary_key) (not has_allowance)
  modify (λ db. record db { allowances = db.allowances ++ allowance_row intent ∷ [] })

module _ (crypto : Crypto) where
  -- The credential is bound to the intent that it signed; the result is the hash of the intent.
  unfoldable pub bind_credential : IntentMandate → Credential → Action Text
  bind_credential intent credential = do
    intent_bytes ← lift (intent_signing_bytes intent)
    valid ← lift (verify_mandate_signature crypto intent_bytes intent.sig credential)
    ensure (route_error 400 (text "SIG_INVALID_INTENT")) valid
    let intent_hash_hex = sha256_hex crypto intent_bytes
    insert_mandate intent intent_hash_hex credential
    _ ← append_ledger crypto (record {
      event_type = text "mandate_registered";
      settlement_id = none;
      actor = text "facilitator";
      payload = obj (
          field (text "mandate_id") intent.mandate_id (
            field (text "intent_hash_hex") (str intent_hash_hex)
              (field (text "agent_pubkey_hex") intent.agent_pubkey_hex end)));
    })
    pure intent_hash_hex

  -- The transaction.
  unfoldable pub register_mandate :
      IntentMandate → Credential → (ceremony_token : Text) → Action Text
  register_mandate intent credential ceremony_token = do
    consume_token ceremony_token
    bind_credential intent credential

  unfoldable pub post_mandates : IntentMandate → Credential → (ceremony_token : Text) → Action Text
  post_mandates intent credential ceremony_token =
      tx (register_mandate intent credential ceremony_token)
