-- ===== src/Base/Int.antt =====
-- Differences of native numbers, as integers: JavaScript's `-` may go below zero.
use Prim.Native.Nat.{ℕ, ◌-◌}
use appspine_packages.Base.Tests.{if◌then◌else◌, leb}

-- `negsuc n` is -(n + 1).
pub data ℤ : Type 0 where
  pos : ℕ → ℤ
  negsuc : ℕ → ℤ

-- a - b, as an integer.
unfoldable pub sub_ℕ : ℕ → ℕ → ℤ
sub_ℕ a b = if leb b a then pos (a - b) else negsuc (b - a - 1)
