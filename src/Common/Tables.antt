-- ===== src/Common/Tables.antt =====
-- Facts about all numbers below a bound, checked by evaluation.
use Prim.Native.Nat.{ℕ, zero, suc, ◌<◌}
use mathlib.Core.Path.{◌≡◌, refl}
use mathlib.Core.Bool.{Bool, true, false, not}
use native.Mathlib.Omega.{arith}
use native.Mathlib.Decide.{ℕ_discrete}
use dug_os.Common.Tests.{if◌then◌else◌}

abbrev pub same : Bool → Bool → Bool
same true b = b
same false b = not b

pub same_sound : (a b : Bool) → same a b ≡ true → a ≡ b
same_sound true b h = cc
same_sound false true h = h
same_sound false false h = refl

-- Whether a test holds of each number below a bound.
unfoldable pub passes : (ℕ → Bool) → ℕ → Bool
passes test zero = true
passes test (suc bound) = if test bound then passes test bound else false

pub passes_at :
    (test : ℕ → Bool) (bound k : ℕ) → passes test bound ≡ true → k < bound → test k ≡ true
unfolding passes
passes_at test zero k all below = absurd (omega arith)
passes_at test (suc bound) k all below = elim (ℕ_discrete k bound) [
  | yes last ↦ rw (last) (ground arith)
  | no earlier ↦ passes_at test bound k (ground arith) (omega arith)
]
