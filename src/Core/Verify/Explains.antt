-- ===== src/Core/Verify/Explains.antt =====
-- An outcome that is explained by conditions in an order: the reported code is that of the first
-- condition that fails. One rule for each way to build a chain of checks.
use hundi.Common.{ℕ, zero, suc, ◌≤◌, ◌<◌, ◌≡◌, refl, sym, ap, ◌∙◌, ◌⊎◌, inl, inr, arith}
use mathlib.Core.Path.{subst}
use hundi.Core.Verify.Checks.{RejectionCode, Gate, passed, rejected, threw, ◌>>=◌}
use hundi.Core.Verify.Meaning.{rank}

abbrev unrank : ℕ → RejectionCode
unrank zero = RejectionCode.schema_invalid
unrank (suc zero) = RejectionCode.mandate_unknown
unrank (suc (suc zero)) = RejectionCode.sig_invalid_intent
unrank (suc (suc (suc zero))) = RejectionCode.hash_link_mismatch
unrank (suc (suc (suc (suc zero)))) = RejectionCode.sig_invalid_cart
unrank (suc (suc (suc (suc (suc zero))))) = RejectionCode.line_item_invalid
unrank (suc (suc (suc (suc (suc (suc n)))))) = elim n [
  | zero ↦ RejectionCode.price_mismatch
  | suc zero ↦ RejectionCode.currency_mismatch
  | suc (suc zero) ↦ RejectionCode.merchant_not_in_scope
  | suc (suc (suc zero)) ↦ RejectionCode.mandate_expired
  | suc (suc (suc (suc zero))) ↦ RejectionCode.mandate_revoked
  | suc (suc (suc (suc (suc zero)))) ↦ RejectionCode.goal_mismatch
  | suc (suc (suc (suc (suc (suc zero))))) ↦ RejectionCode.amount_exceeds_ceiling
  | suc (suc (suc (suc (suc (suc (suc zero)))))) ↦ RejectionCode.merchant_limit_exceeded
  | suc (suc (suc (suc (suc (suc (suc (suc zero))))))) ↦ RejectionCode.duplicate_cart
  | suc (suc (suc (suc (suc (suc (suc (suc (suc k)))))))) ↦ RejectionCode.allowance_reserved
]

unrank-rank : (c : RejectionCode) → unrank (rank c) ≡ c
unrank-rank RejectionCode.schema_invalid = refl
unrank-rank _ = refl

rank-injective : (c d : RejectionCode) → rank c ≡ rank d → c ≡ d
rank-injective c d h = sym (unrank-rank c) ∙ (ap unrank h ∙ unrank-rank d)

lt-or-le : (a b : ℕ) → (a < b) ⊎ (b ≤ a)
lt-or-le a b = grind arith

module _ (H : RejectionCode → Type 0) where
  -- The conditions of rank `n` up to `m`.
  abbrev pub HoldBetween : ℕ → ℕ → Type 0
  HoldBetween n m = (c : RejectionCode) → n ≤ rank c → rank c < m → H c

  abbrev pub Explains : {A : Type 0} → ℕ → ℕ → Gate A → Type 0
  Explains n m (passed a) = HoldBetween n m
  Explains n m (rejected c detail) = ¬ H c × (n ≤ rank c) × (rank c < m) × HoldBetween n (rank c)
  Explains n m (threw e) = Unit

  -- One check speaks of one condition.
  abbrev pub Decides : {A : Type 0} → RejectionCode → Gate A → Type 0
  Decides c (passed a) = H c
  Decides c (rejected d detail) = (d ≡ c) × ¬ H c
  Decides c (threw e) = Unit

  HoldBetween-trans : (n m k : ℕ) → HoldBetween n m → HoldBetween m k → HoldBetween n k
  HoldBetween-trans n m k low high c h l = elim (lt-or-le (rank c) m) [
    | inl below ↦ low c h below
    | inr above ↦ high c above l
  ]

  Explains-widen :
      {A : Type 0} (n m k : ℕ) (g : Gate A)
      → n ≤ m
      → HoldBetween n m
      → Explains m k g
      → Explains n k g
  Explains-widen n m k (passed a) nm low e = HoldBetween-trans n m k low e
  Explains-widen n m k (rejected c detail) nm low (fails, above, below, high) =
      (fails, omega arith, below, HoldBetween-trans n m (rank c) low high)
  Explains-widen n m k (threw e) nm low u = tt

  pub Explains-bind :
      {A B : Type 0} (n m k : ℕ) (g : Gate A) (f : A → Gate B)
      → n ≤ m
      → m ≤ k
      → Explains n m g
      → ((a : A) → g ≡ passed a → Explains m k (f a))
      → Explains n k (g >>= f)
  Explains-bind n m k (passed a) f nm mk low rest = Explains-widen n m k (f a) nm low (rest a refl)
  Explains-bind n m k (rejected c detail) f nm mk (fails, above, below, low) rest =
      (fails, above, omega arith, low)
  Explains-bind n m k (threw e) f nm mk u rest = tt

  pub Explains-check :
      {A : Type 0} (c : RejectionCode) (g : Gate A)
      → Decides c g
      → Explains (rank c) (suc (rank c)) g
  Explains-check c (passed a) h = λ d above below. subst H (rank-injective c d (omega arith)) h
  Explains-check c (rejected d detail) (same, fails) =
      rw same (fails, omega arith, omega arith, λ e above below. absurd (omega arith))
  Explains-check c (threw e) u = tt
