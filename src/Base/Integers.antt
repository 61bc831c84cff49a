-- ===== src/Base/Integers.antt =====
-- Go's `int` where a value below 0 can occur.
use Prim.Native.Nat.{ℕ}

pub data ℤ : Type 0 where
  pos : ℕ → ℤ
  negsuc : ℕ → ℤ
