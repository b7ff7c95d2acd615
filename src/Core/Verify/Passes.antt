-- ===== src/Core/Verify/Passes.antt =====
-- When the gate of packages/core/src/verify.ts passes, and what its answer then holds.
use hundi.Common.{
  Exception, ◌≢◌, ℕ, ◌+◌, ◌≤◌, ◌<◌, ◌≡◌, refl, ◌↔◌, false, List, Text, arith, ltb, ◌||◌, ok,
}
use mathlib.Core.Path.{subst}
use hundi.Core.Value.{Value, undefined, num, get, nat_of, text_of, items_of}
use hundi.Core.CanonicalJson.{canonical_json}
use hundi.Core.CanonicalJson.Total.{Returns, Returns-canonical_json}
use hundi.Core.Crypto.{Crypto}
use hundi.Core.Mandate.{IntentMandate, CartMandate, intent_signing_bytes, cart_signing_bytes}
use hundi.Core.Signature.{sha256_hex}
use hundi.Core.Verify.Checks.{RejectionCode, Gate, passed, rejected, threw}
use hundi.Core.Verify.{
  VerifyCtx, Pass, or_default, check_purchase, check_signatures, verify_chain, hash_pair,
  needs_approval, crosses_cumulative,
}
use hundi.Core.Verify.Meaning.{
  rank, Holds, IsSignedByHuman, IsLinked, IsSignedByAgent, IsWithinLimit,
}
use hundi.Core.Verify.Explains.{Explains}
use hundi.Core.Verify.Explained.{verify_chain-explained}
use hundi.Core.Verify.Purchase.{
  check_catalog-Reports, check_purpose-Reports, check_merchant_limit-Reports,
}

within_lines :
    (line : Value) (threshold total spending : ℕ)
    → ((ltb threshold total || crosses_cumulative line spending) ≡ false)
      ↔ ((total ≤ threshold) × IsWithinLimit line spending)
unfolding crosses_cumulative
within_lines undefined threshold total spending = ground arith
within_lines (num n) threshold total spending = ground arith
within_lines _ threshold total spending = ground arith

module _ (intent : IntentMandate) (cart : CartMandate) (ctx : VerifyCtx) where
  check_purchase-ne-threw : (e : Exception) → check_purchase intent cart ctx ≢ threw e
  unfolding check_purchase
  check_purchase-ne-threw e h = ground (
    arith,
    check_catalog-Reports ctx.catalog_prices (items_of cart.items),
    check_purpose-Reports (items_of intent.allowed_skus) (items_of cart.items),
    check_merchant_limit-Reports (get (text_of cart.merchant_id) intent.per_merchant_ceiling_paise)
        (or_default ctx.merchant_spent_paise 0) (nat_of cart.total_paise)
        (text_of cart.merchant_id),
  )

  -- The hash of the pair of hashes is always taken.
  hash_pair-Returns : (a b : Text) → Returns (canonical_json (hash_pair a b))
  hash_pair-Returns a b = (Returns-canonical_json (hash_pair a b)).1 (tt, (tt, tt))

  module _ (crypto : Crypto) where
    -- What the signature checks hand on: the hash of the intent and the bytes of the cart.
    check_signatures-passed :
        IsSignedByHuman crypto intent cart ctx
        → IsLinked crypto intent cart ctx
        → IsSignedByAgent crypto intent cart ctx
        → (signed : Text × List ℕ) × (check_signatures crypto intent cart ctx.credential
            ≡ passed signed)
    unfolding check_signatures
    check_signatures-passed (key, bytes, known, signing, signed) linked (cb, cs, cv) =
        ((sha256_hex crypto bytes, cb), ground arith)

    verify_chain-ne-threw :
        IsSignedByHuman crypto intent cart ctx
        → IsLinked crypto intent cart ctx
        → IsSignedByAgent crypto intent cart ctx
        → (e : Exception) → verify_chain crypto intent cart ctx ≢ threw e
    unfolding verify_chain
    verify_chain-ne-threw human linked agent e h =
        let (signed, signatures) = check_signatures-passed human linked agent in
        ground (
          arith,
          check_purchase-ne-threw e,
          hash_pair-Returns signed.0 (sha256_hex crypto signed.1),
        )

    all_hold-passed :
        (g : Gate Pass)
        → verify_chain crypto intent cart ctx ≡ g
        → ((c : RejectionCode) → rank c < 15 → Holds crypto intent cart ctx c)
        → (p : Pass) × (g ≡ passed p)
    all_hold-passed (passed p) e h = (p, refl)
    all_hold-passed (rejected c detail) e h =
        let (fails, above, below, low) =
          subst (Explains (Holds crypto intent cart ctx) 0 15) e
            (verify_chain-explained crypto intent cart ctx) in
        absurd (fails (h c below))
    all_hold-passed (threw x) e h = absurd (
        verify_chain-ne-threw (h RejectionCode.sig_invalid_intent (omega arith))
          (h RejectionCode.hash_link_mismatch (omega arith))
          (h RejectionCode.sig_invalid_cart (omega arith)) x e)

    -- The gate passes exactly if all fifteen conditions hold: both schemas, a registered human key
    -- that signed the intent, the link from the cart to the intent, the agent's signature on the
    -- cart, the sum of the items, the catalog's prices, the currency, the merchant, the expiry, no
    -- revocation, the allowed skus, the ceiling, the merchant's limit, and no duplicate.
    pub verify_chain-passes_iff :
        ((p : Pass) × (verify_chain crypto intent cart ctx ≡ passed p))
        ↔ ((c : RejectionCode) → rank c < 15 → Holds crypto intent cart ctx c)
    verify_chain-passes_iff = (
      (λ r. λ c below.
          subst (Explains (Holds crypto intent cart ctx) 0 15) (r.1)
            (verify_chain-explained crypto intent cart ctx) c (omega arith) below),
      (λ h. all_hold-passed _ refl h),
    )

    approval_iff : (needs_approval intent cart ctx ≡ false) ↔ (
        (nat_of cart.total_paise ≤ nat_of intent.approval_threshold_paise)
        × IsWithinLimit intent.cumulative_approval_threshold_paise
            (or_default ctx.spent_paise 0 + nat_of cart.total_paise))
    unfolding needs_approval
    approval_iff =
        within_lines intent.cumulative_approval_threshold_paise _ _
          (or_default ctx.spent_paise 0 + nat_of cart.total_paise)

    pub passed_fields :
        (p : Pass)
        → verify_chain crypto intent cart ctx ≡ passed p
        → (p.needs_approval ≡ needs_approval intent cart ctx)
          × ((intent_bytes : List ℕ) × (cart_bytes : List ℕ) × (bytes : List ℕ)
              × (intent_signing_bytes intent ≡ ok intent_bytes)
              × (cart_signing_bytes cart ≡ ok cart_bytes)
              × (canonical_json
                    (hash_pair (sha256_hex crypto intent_bytes) (sha256_hex crypto cart_bytes))
                  ≡ ok bytes)
              × (p.mandate_cart_hash_hex ≡ sha256_hex crypto bytes))
    unfolding verify_chain check_signatures
    passed_fields p e = (ground arith, ground arith)

    -- A cart that passes settles with no human exactly if its total is at most the threshold and,
    -- where the human set a cumulative line, all the spending with it stays within that line.
    pub verify_chain-hands_free :
        (p : Pass)
        → verify_chain crypto intent cart ctx ≡ passed p
        → (p.needs_approval ≡ false) ↔ (
            (nat_of cart.total_paise ≤ nat_of intent.approval_threshold_paise)
            × IsWithinLimit intent.cumulative_approval_threshold_paise
                (or_default ctx.spent_paise 0 + nat_of cart.total_paise))
    unfolding verify_chain
    verify_chain-hands_free p e = rw ((passed_fields p e).0) approval_iff
