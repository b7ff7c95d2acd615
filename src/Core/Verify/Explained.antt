-- ===== src/Core/Verify/Explained.antt =====
-- The gate of packages/core/src/verify.ts as a whole: what its answer says of the mandate chain.
use hundi.Common.{
  ℕ, suc, ◌≤◌, ◌<◌, ◌≡◌, refl, ap, ◌∙◌, ◌↔◌, inl, inr, Bool, true, false, not, List, Text, text,
  Option, none, some, arith, leb, ◌==◌, Result, ok, err,
}
use hundi.Core.Value.{is_text, nat_of, text_of, items_of}
use hundi.Core.CanonicalJson.{canonical_json}
use hundi.Core.Crypto.{Crypto}
use hundi.Core.Mandate.{IntentMandate, CartMandate, intent_signing_bytes, cart_signing_bytes}
use hundi.Core.Signature.{Credential, sha256_hex, verify_mandate_signature}
use hundi.Core.Verify.Schema.{validate_intent_schema, validate_cart_schema}
use hundi.Core.Verify.Checks.{
  RejectionCode, Gate, passed, rejected, threw, ◌>>=◌, ◌>>◌, require, require_none, require_some,
  call,
}
use hundi.Core.Verify.{
  VerifyCtx, or_default, check_purchase, check_signatures, recomputed_total, verify_chain,
  ed25519_envelope, hash_pair, needs_approval,
}
use hundi.Core.Verify.Meaning.{
  rank, Holds, sum_of_items, IsSignedByHuman, IsLinked, IsSignedByAgent,
}
use hundi.Core.Verify.Explains.{Explains, Explains-bind, Explains-check, Decides, HoldBetween}
use hundi.Core.Verify.Purchase.{
  Reports, require-Reports, check_catalog-Reports, check_purpose-Reports,
  check_merchant_limit-Reports, recomputed_total-eq-sum, includes_iff, is_expired_iff, is_text_iff,
}

same_total :
    (cart : CartMandate)
    → ((recomputed_total (items_of cart.items) 0 == nat_of cart.total_paise) ≡ true)
      ↔ (sum_of_items (items_of cart.items) ≡ nat_of cart.total_paise)
same_total cart = ground (arith, recomputed_total-eq-sum (items_of cart.items) 0)

require_some-passed :
    {A : Type 0} (o : Option A) (c : RejectionCode) (detail : Option Text) {a : A}
    → require_some o c detail ≡ passed a
    → o ≡ some a
require_some-passed none c detail e = cc
require_some-passed (some a) c detail e = cc

leb_iff : (a b : ℕ) → (leb a b ≡ true) ↔ (a ≤ b)
leb_iff a b = ground arith

not_reports : (b : Bool) (c : RejectionCode) → Reports c (require (not b) c none) (b ≡ false)
not_reports b c = require-Reports (not b) c none (ground arith)

module _ (crypto : Crypto) (intent : IntentMandate) (cart : CartMandate) (ctx : VerifyCtx) where
  -- Its conditions are those of this run.
  abbrev Here : RejectionCode → Type 0
  Here = Holds crypto intent cart ctx

  Decides-Reports :
      (c : RejectionCode) (g : Gate (Unit {0})) → Reports c g (Here c) → Decides Here c g
  Decides-Reports c (passed a) (inl (e, h)) = h
  Decides-Reports c (passed a) (inr (detail, e, fails)) = cc
  Decides-Reports c (rejected d detail) (inl (e, h)) = cc
  Decides-Reports c (rejected d detail) (inr (detail', e, fails)) = (cc, fails)
  Decides-Reports c (threw e) r = tt

  then_check :
      {B : Type 0} (c : RejectionCode) (g : Gate (Unit {0})) (f : Unit {0} → Gate B)
      → Reports c g (Here c)
      → rank c < 15
      → Explains Here (suc (rank c)) 15 (f tt)
      → Explains Here (rank c) 15 (g >>= f)
  then_check c g f r below rest =
      Explains-bind Here (rank c) (suc (rank c)) 15 g f (omega arith) (omega arith)
        (Explains-check Here c g (Decides-Reports c g r)) (λ a e. rest)

  check_purchase-explained : Explains Here 5 15 (check_purchase intent cart ctx)
  unfolding check_purchase
  check_purchase-explained =
      then_check RejectionCode.line_item_invalid _ _ (require-Reports _ _ _ (same_total cart))
        (omega arith)
        (then_check RejectionCode.price_mismatch _ _ (check_catalog-Reports _ _) (omega arith) (
          then_check RejectionCode.currency_mismatch _ _
            (require-Reports _ _ _ (is_text_iff intent.currency (text "INR"))) (omega arith)
            (then_check RejectionCode.merchant_not_in_scope _ _
              (require-Reports _ _ _ (includes_iff _ _)) (omega arith)
              (then_check RejectionCode.mandate_expired _ _
                (require-Reports _ _ _ (is_expired_iff ctx.now _ _)) (omega arith)
                (then_check RejectionCode.mandate_revoked _ _ (not_reports ctx.revoked _)
                  (omega arith)
                  (then_check RejectionCode.goal_mismatch _ _ (check_purpose-Reports _ _)
                    (omega arith)
                    (then_check RejectionCode.amount_exceeds_ceiling _ _
                      (require-Reports _ _ _ (leb_iff _ _)) (omega arith)
                      (then_check RejectionCode.merchant_limit_exceeded _ _
                        (check_merchant_limit-Reports _ (or_default ctx.merchant_spent_paise 0) _ _)
                        (omega arith)
                        (Explains-check Here RejectionCode.duplicate_cart _
                          (Decides-Reports _ _ (not_reports ctx.duplicate_cart _)))))))))))

  then_call :
      {A B : Type 0} (n m : ℕ) (r : Result A) (f : A → Gate B)
      → ((a : A) → r ≡ ok a → Explains Here n m (f a))
      → Explains Here n m (call r >>= f)
  then_call n m (ok a) f rest = rest a refl
  then_call n m (err e) f rest = tt

  nothing_between : (n : ℕ) → HoldBetween Here n n
  nothing_between n c above below = absurd (omega arith)

  then_passed :
      {A B : Type 0} (n : ℕ) (r : Result A) (f : A → B)
      → Explains Here n n (call r >>= λ a. passed (f a))
  then_passed n (ok a) f = nothing_between n
  then_passed n (err e) f = tt

  human_iff :
      (key : Credential) (bytes : List ℕ) (signed : Bool)
      → ctx.credential ≡ some key
      → intent_signing_bytes intent ≡ ok bytes
      → verify_mandate_signature crypto bytes intent.sig key ≡ ok signed
      → (signed ≡ true) ↔ IsSignedByHuman crypto intent cart ctx
  human_iff key bytes signed known signing verified =
      ((λ e. (key, bytes, known, signing, verified ∙ ap ok e)), (λ h. cc (h.2, h.3, h.4)))

  linked_iff :
      (bytes : List ℕ)
      → intent_signing_bytes intent ≡ ok bytes
      → (is_text cart.intent_hash_hex (sha256_hex crypto bytes) ≡ true)
        ↔ IsLinked crypto intent cart ctx
  linked_iff bytes signing =
      ((λ e. (bytes, signing, (is_text_iff _ _).0 e)), (λ h. (is_text_iff _ _).1 (cc (h.1, h.2))))

  agent_iff :
      (bytes : List ℕ) (signed : Bool)
      → cart_signing_bytes cart ≡ ok bytes
      → verify_mandate_signature crypto bytes
          (ed25519_envelope cart.agent_sig_hex)
          (Credential.ed25519 (text_of intent.agent_pubkey_hex))
        ≡ ok signed
      → (signed ≡ true) ↔ IsSignedByAgent crypto intent cart ctx
  agent_iff bytes signed signing verified =
      ((λ e. (bytes, signing, verified ∙ ap ok e)), (λ h. cc (h.1, h.2)))

  credential_explained :
      (credential : Option Credential) (detail : Option Text)
      → ctx.credential ≡ credential
      → Decides Here RejectionCode.mandate_unknown
          (require_some credential RejectionCode.mandate_unknown detail)
  credential_explained (some key) detail e = (key, e)
  credential_explained none detail e = (refl, λ h. cc (h.1))

  check_signatures-explained :
      Explains Here 1 5 (check_signatures crypto intent cart ctx.credential)
  unfolding check_signatures
  check_signatures-explained =
      Explains-bind Here 1 2 5 _ _ (omega arith) (omega arith)
        (Explains-check Here RejectionCode.mandate_unknown _ (credential_explained _ _ refl))
        λ key found. then_call 2 5 _ _ λ bytes signing. then_call 2 5 _ _ λ signed verified.
          Explains-bind Here 2 3 5 _ _ (omega arith) (omega arith)
            (Explains-check Here RejectionCode.sig_invalid_intent _ (
              Decides-Reports _ _ (
                require-Reports signed _ _
                  (human_iff key bytes signed (require_some-passed _ _ _ found) signing verified))))
            λ _ _.
              Explains-bind Here 3 4 5 _ _ (omega arith) (omega arith)
                (Explains-check Here RejectionCode.hash_link_mismatch _
                  (Decides-Reports _ _ (require-Reports _ _ _ (linked_iff bytes signing))))
                λ _ _. then_call 4 5 _ _ λ cart_bytes cart_signing.
                  then_call 4 5 _ _ λ cart_signed cart_verified.
                    Explains-bind Here 4 5 5 _ _ (omega arith) (omega arith)
                      (Explains-check Here RejectionCode.sig_invalid_cart _ (
                        Decides-Reports _ _ (
                          require-Reports cart_signed _ _
                            (agent_iff cart_bytes cart_signed cart_signing cart_verified))))
                      λ _ _. nothing_between 5

  then_schemas :
      {B : Type 0} (e f : Option Text) (k : Gate B)
      → validate_intent_schema intent ≡ e
      → validate_cart_schema cart ≡ f
      → Explains Here 1 15 k
      → Explains Here 0 15 (
          require_none e RejectionCode.schema_invalid
          >> (require_none f RejectionCode.schema_invalid >> k))
  then_schemas none none k p q rest =
      Explains-bind Here 0 1 15 (passed tt) (λ _. k) (omega arith) (omega arith)
        (Explains-check Here RejectionCode.schema_invalid (passed tt) (p, q)) (λ _ _. rest)
  then_schemas (some message) f k p q rest =
      ((λ h. cc (h.0)), omega arith, omega arith, λ c above below. absurd (omega arith))
  then_schemas none (some message) k p q rest =
      ((λ h. cc (h.1)), omega arith, omega arith, λ c above below. absurd (omega arith))

  pub verify_chain-explained : Explains Here 0 15 (verify_chain crypto intent cart ctx)
  unfolding verify_chain
  verify_chain-explained = then_schemas _ _ _ refl refl (
      Explains-bind Here 1 5 15 _ _ (omega arith) (omega arith) check_signatures-explained
        λ signed _.
          Explains-bind Here 5 15 15 _ _ (omega arith) (omega arith) check_purchase-explained λ _ _.
            then_passed 15 (canonical_json (hash_pair signed.0 (sha256_hex crypto signed.1)))
              (λ bytes. record {
                needs_approval = needs_approval intent cart ctx;
                mandate_cart_hash_hex = sha256_hex crypto bytes;
              }))
