-- ===== src/Base/Bits.antt =====
-- The bits of a machine word: `w >> j & 1` and `w | 1 << j`, one bit at a time.
use Prim.Native.Nat.{ℕ, zero, suc, ◌+◌, ◌*◌, ◌/◌, ◌%◌, ◌<◌}
use mathlib.Core.Path.{◌≡◌, refl}
use mathlib.Core.Bool.{Bool, true, false, ◌&&◌, ◌||◌}
use native.Mathlib.Omega.{arith}
use cpmtools.Base.Tests.{◌==◌}

-- `(w >> j) & 1`
unfoldable pub test_bit : ℕ → ℕ → Bool
test_bit w zero = w % 2 == 1
test_bit w (suc j) = test_bit (w / 2) j

-- `w | (1 << j)`
unfoldable pub or_bit : ℕ → ℕ → ℕ
or_bit w zero = w / 2 * 2 + 1
or_bit w (suc j) = or_bit (w / 2) j * 2 + w % 2

pub test_bit-or_bit : (w j k : ℕ) → test_bit (or_bit w j) k ≡ (j == k || test_bit w k)
unfolding test_bit or_bit
test_bit-or_bit w zero zero = ground arith
test_bit-or_bit w zero (suc k) = ground arith
test_bit-or_bit w (suc j) zero = ground arith
test_bit-or_bit w (suc j) (suc k) = ground (arith, test_bit-or_bit (w / 2) j k)

pub test_bit-zero : (j : ℕ) → test_bit 0 j ≡ false
unfolding test_bit
test_bit-zero zero = refl
test_bit-zero (suc j) = test_bit-zero j

-- A test that holds at every number below a bound, by evaluation.
unfoldable pub below : ℕ → (ℕ → Bool) → Bool
below zero test = true
below (suc n) test = test n && below n test

pub below_lem : (n : ℕ) (test : ℕ → Bool) (x : ℕ) → below n test ≡ true → x < n → test x ≡ true
unfolding below
below_lem zero test x h p = absurd (omega arith)
below_lem (suc n) test x h p = ground (arith, below_lem n test x)
