-- ===== src/Tests/Gate.antt =====
-- Runs of the gate of packages/core/src/verify.ts, and each theorem about it at a concrete input.
use hundi.Common.{◌≡◌, refl, ◌↔◌, ◌≤◌, ◌+◌, ◌<◌, true, false, [], ◌∷◌, text, ℕ}
use hundi.Tests.Fixtures.{toy_crypto, intent, cart, ctx}
use hundi.Core.Value.{nat_of}
use hundi.Core.Verify.{
  Pass, verify_chain, check_signatures, check_purchase, needs_approval, recomputed_total,
  check_prices, includes, is_expired, check_purpose, check_merchant_limit, or_default,
}
use hundi.Core.Verify.Checks.{RejectionCode, passed}
use hundi.Core.Verify.Schema.{validate_intent_schema, validate_cart_schema}
use hundi.Core.Verify.Passes.{verify_chain-passes_iff, verify_chain-hands_free}
use hundi.Core.Verify.Meaning.{Holds, IsWithinLimit, rank}
use hundi.Core.Verify.Explains.{Explains}
use hundi.Core.Mandate.{intent_signing_bytes, cart_signing_bytes}
use hundi.Core.Signature.{verify_mandate_signature, sha256_hex}
use hundi.Core.CanonicalJson.{canonical_json}
use hundi.Facilitator.VerifyLogic.{verify_ctx}
use hundi.Facilitator.MandateRepo.{get_mandate_row, get_captured_spend}

-- The gate as it runs.
unfoldable pub gate : Unit {0}
unfolding verify_chain check_signatures check_purchase needs_approval recomputed_total check_prices
    includes is_expired check_purpose check_merchant_limit validate_intent_schema
    validate_cart_schema intent_signing_bytes cart_signing_bytes verify_mandate_signature sha256_hex
    canonical_json verify_ctx get_mandate_row get_captured_spend hundi.Core.Value.get
    hundi.Common.Text-discrete hundi.Core.Signature.hex_to_bytes hundi.Facilitator.Table.total
gate = tt

abbrev pass : Pass
pass = record { needs_approval = false; mandate_cart_hash_hex = 37 ∷ [] }

gate_passes : verify_chain toy_crypto intent cart ctx ≡ passed pass
unfolding gate
gate_passes = refl

verify_chain-hands_free_example : (false ≡ false) ↔ (
    (nat_of cart.total_paise ≤ nat_of intent.approval_threshold_paise)
    × IsWithinLimit intent.cumulative_approval_threshold_paise
        (or_default ctx.spent_paise 0 + nat_of cart.total_paise))
verify_chain-hands_free_example =
    verify_chain-hands_free intent cart ctx toy_crypto pass gate_passes

verify_chain-passes_iff_example :
    ((p : Pass) × (verify_chain toy_crypto intent cart ctx ≡ passed p))
    ↔ ((c : RejectionCode) → rank c < 15 → Holds toy_crypto intent cart ctx c)
verify_chain-passes_iff_example = verify_chain-passes_iff intent cart ctx toy_crypto
