-- ===== src/Base/Int.antt =====
-- Integers that a caller may pass negative, and the clamps that the code applies to them.
use zen_claw.Base.Tests.{leb, if◌then◌else◌}
use Prim.Native.Nat.{ℕ}

-- `negsuc n` is -(n + 1).
pub data ℤ : Type 0 where
  pos : ℕ → ℤ
  negsuc : ℕ → ℤ

-- `max(0, int(x))`
unfoldable pub max_zero : ℤ → ℕ
max_zero (pos n) = n
max_zero (negsuc n) = 0

-- `max(1, int(x))`
unfoldable pub max_one : ℤ → ℕ
max_one (pos n) = if leb 1 n then n else 1
max_one (negsuc n) = 1
