-- ===== src/Common/Int.antt =====
-- The integers: JavaScript numbers without a fraction, of any size.
use Prim.Native.Nat.{ℕ, min}
use mathlib.Core.Bool.{Bool, true}
use hundi.Common.Tests.{ltb}

-- `negsuc n` is -(n + 1).
pub data ℤ : Type 0 where
  pos : ℕ → ℤ
  negsuc : ℕ → ℤ

-- `Math.min(a, z)`
abbrev pub min_int : ℕ → ℤ → ℤ
min_int a (pos b) = pos (min a b)
min_int a (negsuc b) = negsuc b

-- `now > z`
abbrev pub is_past : ℕ → ℤ → Bool
is_past now (pos n) = ltb n now
is_past now (negsuc n) = true
