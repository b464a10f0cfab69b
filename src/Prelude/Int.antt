-- ===== src/Prelude/Int.antt =====
-- `int`, and the conversion of a `size_t` to it.
use Prim.Native.Nat.{ℕ, ◌-◌, ◌%◌, ◌^◌, ◌<◌}
use mathlib.Core.Path.{◌≡◌}
use native.Mathlib.Omega.{arith}
use qt_messenger.Prelude.Tests.{ltb, if◌then◌else◌}

-- `negsuc n` is -(n + 1).
pub data ℤ : Type 0 where
  pos : ℕ → ℤ
  negsuc : ℕ → ℤ

-- `static_cast<int>` of an unsigned value: the low 32 bits, as two's complement.
unfoldable pub to_int : ℕ → ℤ
to_int n = let w = n % 2 ^ 32 in if ltb w (2 ^ 31) then pos w else negsuc (2 ^ 32 - w - 1)

pub to_int-pos : (n : ℕ) → n < 2 ^ 31 → to_int n ≡ pos n
unfolding to_int
to_int-pos n h = ground arith
