-- ===== src/Core/Verify/Purchase.antt =====
-- Each check of packages/core/src/verify.ts decides the condition of its code.
use hundi.Common.{
  ℕ, ◌+◌, ◌*◌, ◌≡◌, refl, ◌↔◌, ◌⊎◌, inl, inr, Bool, true, false, not, List, [], ◌∷◌, Text, All,
  Option, none, some, ℤ, pos, negsuc, arith,
}
use hundi.Core.Value.{Value, undefined, num, str, nat_of, text_of, is_text}
use hundi.Core.CartItem
use hundi.Core.Verify.Checks.{RejectionCode, Gate, passed, rejected, ◌>>◌, require}
use hundi.Core.Verify.{
  Prices, price_of, price_matches, recomputed_total, check_prices, check_catalog, includes,
  is_expired, check_skus, check_purpose, check_merchant_limit,
}
use hundi.Core.Verify.Meaning.{
  sum_of_items, HasPrice, MatchesCatalog, IsListed, IsFresh, IsOnPurpose, IsWithinLimit,
}

pub recomputed_total-eq-sum :
    (items : List Value) (sum : ℕ) → recomputed_total items sum ≡ sum + sum_of_items items
unfolding recomputed_total
recomputed_total-eq-sum [] sum = omega arith
recomputed_total-eq-sum (item ∷ items) sum = omega (
  arith,
  recomputed_total-eq-sum items
      (sum + nat_of (CartItem.qty item) * nat_of (CartItem.unit_price_paise item)),
)

pub is_text_iff : (v : Value) (t : Text) → (is_text v t ≡ true) ↔ (v ≡ str t)
is_text_iff (str s) t = ground arith
is_text_iff undefined t = ground arith
is_text_iff _ t = ground arith

pub includes_iff : (vs : List Value) (t : Text) → (includes vs t ≡ true) ↔ IsListed vs t
unfolding includes
includes_iff [] t = ground arith
includes_iff (v ∷ vs) t = ground (arith, is_text_iff v t, includes_iff vs t)

pub is_expired_iff :
    (now : ℕ) (e : ℤ) (skew : ℕ) → (not (is_expired now e skew) ≡ true) ↔ IsFresh now e skew
unfolding is_expired
is_expired_iff now (pos e) skew = ground arith
is_expired_iff now (negsuc e) skew = ground arith

-- A check passes if its condition holds, and else reports its code.
abbrev pub Reports : RejectionCode → Gate (Unit {0}) → Type 0 → Type 0
Reports c g P = ((g ≡ passed tt) × P) ⊎ ((detail : Option Text) × (g ≡ rejected c detail) × ¬ P)

pub require-Reports :
    (b : Bool) (c : RejectionCode) (detail : Option Text) {P : Type 0}
    → (b ≡ true) ↔ P
    → Reports c (require b c detail) P
require-Reports true c detail h = inl (refl, h.0 refl)
require-Reports false c detail h = inr (detail, refl, λ p. cc (h.1 p))

-- The rest of a loop with one code runs if this round passes.
Reports-then :
    {c : RejectionCode} {g k : Gate (Unit {0})} {P Q : Type 0}
    → Reports c g P
    → Reports c k Q
    → Reports c (g >> k) (P × Q)
Reports-then (inl (here, p)) (inl (there, q)) = inl (rw here there, (p, q))
Reports-then (inl (here, p)) (inr (detail, there, fails)) =
    inr (detail, rw here there, λ both. fails both.1)
Reports-then (inr (detail, here, fails)) rest = inr (detail, rw here refl, λ both. fails both.0)

price_matches_iff :
    (found : Option ℕ) (item : Value)
    → (price_matches found item ≡ true) ↔ (found ≡ some (nat_of (CartItem.unit_price_paise item)))
price_matches_iff none item = ground arith
price_matches_iff (some price) item = ground arith

pub check_prices-Reports :
    (prices : Prices) (items : List Value)
    → Reports RejectionCode.price_mismatch (check_prices prices items) (All (HasPrice prices) items)
unfolding check_prices
check_prices-Reports prices [] = inl (refl, tt)
check_prices-Reports prices (item ∷ items) =
    let price = price_of (text_of (CartItem.sku item)) prices in
    Reports-then (require-Reports (price_matches price item) _ _ (price_matches_iff price item))
      (check_prices-Reports prices items)

pub check_skus-Reports :
    (allowed items : List Value)
    → Reports RejectionCode.goal_mismatch
        (check_skus allowed items)
        (All (λ item. IsListed allowed (text_of (CartItem.sku item))) items)
unfolding check_skus
check_skus-Reports allowed [] = inl (refl, tt)
check_skus-Reports allowed (item ∷ items) =
    let sku = text_of (CartItem.sku item) in
    Reports-then (require-Reports (includes allowed sku) _ _ (includes_iff allowed sku))
      (check_skus-Reports allowed items)

pub check_catalog-Reports :
    (prices : Option Prices) (items : List Value)
    → Reports RejectionCode.price_mismatch
        (check_catalog prices items)
        (MatchesCatalog prices items)
check_catalog-Reports none items = inl (refl, tt)
check_catalog-Reports (some prices) items = check_prices-Reports prices items

pub check_purpose-Reports :
    (allowed items : List Value)
    → Reports RejectionCode.goal_mismatch (check_purpose allowed items) (IsOnPurpose allowed items)
unfolding check_purpose
check_purpose-Reports [] items = inl (refl, tt)
check_purpose-Reports (sku ∷ skus) items = check_skus-Reports (sku ∷ skus) items

pub check_merchant_limit-Reports :
    (limit : Value) (spent total : ℕ) (merchant : Text)
    → Reports RejectionCode.merchant_limit_exceeded
        (check_merchant_limit limit spent total merchant)
        (IsWithinLimit limit (spent + total))
unfolding check_merchant_limit
check_merchant_limit-Reports undefined spent total merchant = inl (refl, inl refl)
check_merchant_limit-Reports (num n) spent total merchant = require-Reports _ _ _ (ground arith)
check_merchant_limit-Reports _ spent total merchant = require-Reports _ _ _ (ground arith)
