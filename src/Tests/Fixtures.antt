-- ===== src/Tests/Fixtures.antt =====
-- Test data: a stand-in for the third-party cryptography, one mandate, one cart, one database.
use hundi.Core.CanonicalJson.{canonical_json}
use hundi.Common.{err, ℕ, List, true, [], ◌∷◌, text, none, some, ok, length, Result}
use hundi.Core.Value.{Value, null, str, arr, cons, nil, obj, field, end, nat}
use hundi.Core.Crypto.{Crypto}
use hundi.Core.Mandate.{IntentMandate, CartMandate}
use hundi.Core.Signature.{Credential}
use hundi.Core.Verify.{VerifyCtx, Pass, verify_chain}
use hundi.Core.Verify.Checks.{Gate}
use hundi.Facilitator.VerifyLogic.{verify_ctx}
use hundi.Facilitator.Routes.Settlements.{Answer, post_settlements}
use hundi.Facilitator.Routes.Settlements.{intent_of, cart_of}
use hundi.Facilitator.Db.{
  MandateRow, Db, SettlementRow, SettlementState, AttemptRow, AttemptState, Method,
}

-- A digest is the length, and every signature is good.
abbrev pub toy_crypto : Crypto
toy_crypto = record {
  sha256 = λ bytes. length bytes ∷ [];
  bytes_to_hex = λ bytes. bytes;
  ed25519_verify = λ signature message key. ok true;
  p256_verify = λ signature message key. ok true;
  json_parse = λ s. ok null;
  utf8_decode = λ bytes. bytes;
}

abbrev sig : Value
sig = obj (
    field (text "type") (str (text "ed25519")) (field (text "signature_hex") (str (text "0a")) end))

abbrev pub intent_value : Value
intent_value = obj (
    field (text "mandateId") (str (text "m1")) (
      field (text "goal") (str (text "tea")) (
        field (text "ceiling_paise") (nat 1000) (
          field (text "approval_threshold_paise") (nat 500) (
            field (text "currency") (str (text "INR")) (
              field (text "merchants") (arr (cons (str (text "shop")) nil)) (
                field (text "expires_at") (nat 5000) (
                  field (text "agent_pubkey_hex") (str (text "0b"))
                    (field (text "sig") sig end)))))))))

abbrev item : Value
item = obj (
    field (text "sku") (str (text "tea1"))
      (field (text "qty") (nat 2) (field (text "unit_price_paise") (nat 200) end)))

abbrev pub cart_value : Value
cart_value = obj (
    field (text "cartId") (str (text "c1")) (
      field (text "merchant_id") (str (text "shop")) (
        field (text "items") (arr (cons item nil)) (
          field (text "total_paise") (nat 400) (
            field (text "intent_hash_hex") (str (163 ∷ []))
              (field (text "agent_sig_hex") (str (text "0c")) end))))))

abbrev pub body : Value
body = obj (field (text "intent") intent_value (field (text "cart") cart_value end))

abbrev pub intent : IntentMandate
intent = intent_of intent_value

abbrev pub cart : CartMandate
cart = cart_of cart_value

abbrev pub mandate_row : MandateRow
mandate_row = record {
  mandate_id = text "m1";
  intent = intent;
  intent_hash_hex = 163 ∷ [];
  credential = Credential.ed25519 (text "0d");
  revoked_at = none;
  created_at = 90;
}

-- The mandate is registered, and nothing else has happened.
abbrev pub db : Db
db = record {
  clock = 100;
  mandates = mandate_row ∷ [];
  allowances = [];
  settlements = [];
  attempts = [];
  approvals = [];
  idempotency_keys = [];
  webhook_events = [];
  merchants = [];
  ceremony_tokens = record { token = text "t1"; used_at = none } ∷ [];
  ledger = [];
}

abbrev pub ctx : VerifyCtx
ctx = verify_ctx toy_crypto db intent cart 100 none (1 ∷ [])

abbrev g : Gate Pass
g = verify_chain toy_crypto intent cart ctx

abbrev post : Result Answer × Db
post = post_settlements toy_crypto (some (text "k1")) body (text "s1") 100 db

-- A settlement of the cart, in a state.
abbrev pub settlement_in : SettlementState → SettlementRow
settlement_in state = record {
  id = text "s1";
  mandate_id = text "m1";
  cart = cart;
  mandate_cart_hash_hex = 37 ∷ [];
  amount_paise = 400;
  merchant_id = text "shop";
  state = state;
  reject_reason = none;
  entered_at = λ s. none;
  kick_count = 0;
}

abbrev pub with_settlement : SettlementState → Db
with_settlement state = record db { settlements = settlement_in state ∷ [] }

abbrev attempt : AttemptRow
attempt = record {
  id = text "a1";
  settlement_id = text "s1";
  method = Method.s2s_api;
  state = AttemptState.awaiting_confirmation;
  receipt = text "r1";
  provider_order_id = some (text "o1");
  provider_payment_id = none;
  provider_link_id = none;
  created_at = 95;
  updated_at = 95;
}

abbrev pub with_attempt : SettlementState → Db
with_attempt state = record (with_settlement state) { attempts = attempt ∷ [] }

abbrev pub signature : Value
signature = sig

abbrev pub bytes_of : Value → List ℕ
bytes_of v = elim (canonical_json v) [ ok bytes ↦ bytes | err e ↦ [] ]
