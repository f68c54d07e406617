-- ===== src/Common/Int.antt =====
-- Signed integers over the native numbers, with Go's 32-bit wrap-around.
use Prim.Native.Nat.{ℕ, zero, suc, ◌+◌, ◌-◌, ◌%◌, ◌<◌}
use mathlib.Core.Path.{◌≡◌, refl}
use mathlib.Core.Bool.{Bool, true, false}
use native.Mathlib.Omega.{arith}
use datakit_operator.Common.Tests.{ltb, if◌then◌else◌}

-- `negsuc n` is -(n + 1).
pub data ℤ : Type 0 where
  pos : ℕ → ℤ
  negsuc : ℕ → ℤ

abbrev pub ltz : ℤ → ℤ → Bool
ltz (pos a) (pos b) = ltb a b
ltz (pos a) (negsuc b) = false
ltz (negsuc a) (pos b) = true
ltz (negsuc a) (negsuc b) = ltb b a

-- z + 1
abbrev pub sucz : ℤ → ℤ
sucz (pos n) = pos (n + 1)
sucz (negsuc zero) = pos 0
sucz (negsuc (suc n)) = negsuc n

-- `int32(z)` for a wider z: the low 32 bits, read as a signed number.
abbrev pub int32 : ℤ → ℤ
int32 (pos n) =
    let low = n % 4294967296 in if ltb low 2147483648 then pos low else negsuc (4294967295 - low)
int32 (negsuc n) =
    let low = n % 4294967296 in if ltb low 2147483648 then negsuc low else pos (4294967295 - low)

pub ltz_irrefl : (z : ℤ) → ltz z z ≡ false
ltz_irrefl (pos n) = ground arith
ltz_irrefl (negsuc n) = ground arith

-- Below the largest 32-bit value the successor grows.
pub ltz-int32-sucz : (n : ℕ) → n < 2147483647 → ltz (pos n) (int32 (sucz (pos n))) ≡ true
ltz-int32-sucz n h = ground arith

int32_max_wraps : int32 (sucz (pos 2147483647)) ≡ negsuc 2147483647
int32_max_wraps = refl
