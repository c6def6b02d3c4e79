-- ===== src/Prelude/Int.antt =====
-- Signed results: what an `int`, `long` or `ssize_t` of the C code returns.
use Prim.Native.Nat.{ℕ, zero, suc, ◌-◌, ◌%◌, ◌^◌, ◌<◌}
use mathlib.Core.Path.{◌≡◌}
use native.Mathlib.Omega.{arith}
use mathlib.Core.Bool.{Bool, true, false}
use minix_rv.Prelude.Tests.{leb, ltb, if◌then◌else◌}

-- `negsuc n` is -(n + 1).
pub data ℤ : Type 0 where
  pos : ℕ → ℤ
  negsuc : ℕ → ℤ

-- a - b, as an integer.
abbrev pub sub_ℕ : ℕ → ℕ → ℤ
sub_ℕ a b = if leb b a then pos (a - b) else negsuc (b - a - 1)

-- The -1 of a failing C function.
abbrev pub minus_one : ℤ
minus_one = negsuc 0

abbrev pub is_negative : ℤ → Bool
is_negative (pos n) = false
is_negative (negsuc n) = true

-- The `int` with the 32 bits of a number.
abbrev pub of_u32 : ℕ → ℤ
of_u32 w = if ltb w (2 ^ 31) then pos w else negsuc (2 ^ 32 - 1 - w)

-- The conversion to `int`, which keeps the lower 32 bits.
unfoldable pub to_int : ℤ → ℤ
to_int (pos n) = of_u32 (n % 2 ^ 32)
to_int (negsuc n) = of_u32 (2 ^ 32 - 1 - n % 2 ^ 32)

-- `x++` of an `int`, with the wrap-around of the machine.
unfoldable pub incr : ℤ → ℤ
unfolding to_int
incr (pos n) = to_int (pos (suc n))
incr (negsuc zero) = to_int (pos 0)
incr (negsuc (suc n)) = to_int (negsuc n)

pub incr-pos : (n : ℕ) → suc n < 2 ^ 31 → incr (pos n) ≡ pos (suc n)
unfolding incr to_int
incr-pos n h = ground arith
