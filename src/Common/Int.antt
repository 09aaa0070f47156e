-- ===== src/Common/Int.antt =====
-- The signed integers of the window geometry and of the widgets.
use Prim.Native.Nat.{ℕ}

-- `negsuc n` is -(n + 1).
pub data ℤ : Type 0 where
  pos : ℕ → ℤ
  negsuc : ℕ → ℤ
