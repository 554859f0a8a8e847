-- ===== src/Base/Ints.antt =====
-- The signed numbers, over the native ones; -3 is `negsuc 2`.
use Prim.Native.Nat.{ℕ}

pub data ℤ : Type 0 where
  pos negsuc : ℕ → ℤ
