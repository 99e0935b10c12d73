-- ===== src/Prelude/Int.antt =====
-- Signed integers, as far as the program computes with them: a difference, and a minimum.
use Prim.Native.Nat.{ℕ, ◌-◌}
use agent_force.Prelude.Tests.{leb, if◌then◌else◌}

-- `negsuc n` is -(n + 1).
pub data ℤ : Type 0 where
  pos : ℕ → ℤ
  negsuc : ℕ → ℤ

-- a - b, as an integer.
abbrev pub sub_ℕ : ℕ → ℕ → ℤ
sub_ℕ a b = if leb b a then pos (a - b) else negsuc (b - a - 1)

-- `min(a, b)` of a natural number and an integer.
abbrev pub min_ℤ : ℕ → ℤ → ℤ
min_ℤ a (pos b) = if leb a b then pos a else pos b
min_ℤ a (negsuc b) = negsuc b
