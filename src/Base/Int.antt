-- ===== src/Base/Int.antt =====
-- Go's signed integers as integers; `negsuc n` is -(n + 1). Ranges are stated where they matter.
use Prim.Native.Nat.{ℕ}

pub data ℤ : Type 0 where
  pos : ℕ → ℤ
  negsuc : ℕ → ℤ
