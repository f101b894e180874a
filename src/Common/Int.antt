-- ===== src/Common/Int.antt =====
-- C's `int` results, as signed integers over the native numbers.
use Prim.Native.Nat.{ℕ, ◌-◌, compare, Ordering}
use mathlib.Core.Path.{◌≡◌}
use mathlib.Core.Logic.{◌↔◌}
use mathlib.Core.Bool.{Bool, true, false}
use native.Mathlib.Omega.{arith}
use dug_os.Common.Tests.{leb, if◌then◌else◌}

-- `negsuc n` is -(n + 1).
pub data ℤ : Type 0 where
  pos : ℕ → ℤ
  negsuc : ℕ → ℤ

-- a - b, as an integer.
abbrev pub sub_ℕ : ℕ → ℕ → ℤ
sub_ℕ a b = if leb b a then pos (a - b) else negsuc (b - a - 1)

-- `x == 0`
abbrev pub is_zero : ℤ → Bool
is_zero (pos n) = elim (compare n 0) [ Ordering.eq ↦ true | _ ↦ false ]
is_zero (negsuc n) = false

pub is_zero-sub : (a b : ℕ) → (is_zero (sub_ℕ a b) ≡ true) ↔ (a ≡ b)
is_zero-sub a b = ground arith
