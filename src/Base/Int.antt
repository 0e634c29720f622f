-- ===== src/Base/Int.antt =====
-- Signed numbers over the native numbers; `negsuc n` is -(n + 1).
use Prim.Native.Nat.{ℕ, suc, ◌+◌, ◌-◌}
use cromfs.Base.Tests.{leb, if◌then◌else◌}

pub data ℤ : Type 0 where
  pos : ℕ → ℤ
  negsuc : ℕ → ℤ

-- A natural number and a signed one.
abbrev pub add_ℕ : ℕ → ℤ → ℤ
add_ℕ a (pos b) = pos (a + b)
add_ℕ a (negsuc b) = if leb (suc b) a then pos (a - suc b) else negsuc (b - a)
