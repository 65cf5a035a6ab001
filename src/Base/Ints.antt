-- ===== src/Base/Ints.antt =====
-- Go's `int`, for numbers that may be negative; no code modelled here overflows one.
use Prim.Native.Nat.{ℕ}

-- `negsuc n` is -(n + 1).
pub data ℤ : Type 0 where
  pos : ℕ → ℤ
  negsuc : ℕ → ℤ
