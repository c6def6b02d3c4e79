-- ===== src/Proc/Word.antt =====
-- Bits of an `unsigned long`, as kernel/fork.c sets, clears and tests them.
use Prim.Native.Nat.{bit_and, bit_or}
use native.Mathlib.Nat.{pow-suc, pow-le-pow_right}
use native.Mathlib.Decide.{ℕ_discrete}
use minix_rv.Prelude.{
  ◌≢◌, ℕ, suc, ◌-◌, ◌^◌, ◌<◌, ◌≡◌, ◌∙◌, Bool, true, false, not, ◌&&◌, ◌||◌, arith, ◌==◌,
}
use minix_rv.Prelude.Bits.{
  digit, digit-bit_and, digit-bit_or, digit-lt, digit-zero, digit-pow, digit-not, bit_and-pow,
  digit-eq_zero, bit_or-lt, bit_and-le,
}

-- `~0UL`
abbrev pub all_ones : ℕ
all_ones = 0xFFFFFFFFFFFFFFFF

-- `word & (1UL << bit)`, as a condition.
unfoldable pub test_bit : ℕ → ℕ → Bool
test_bit word bit = not (bit_and word (2 ^ bit) == 0)

-- `word | (1UL << bit)`
unfoldable pub set_bit : ℕ → ℕ → ℕ
set_bit word bit = bit_or word (2 ^ bit)

-- `word & ~(1UL << bit)`
unfoldable pub clear_bit : ℕ → ℕ → ℕ
clear_bit word bit = bit_and word (all_ones - 2 ^ bit)

pow-positive : (b : ℕ) → 0 < 2 ^ b
pow-positive b = omega (arith, pow-le-pow_right {n = 2} (omega arith) {i = 0} {j = b} (omega arith))

pow-lt : (b : ℕ) → b < 64 → 2 ^ b < 2 ^ 64
pow-lt b h = omega (
  arith,
  pow-suc 2 b,
  pow-positive b,
  pow-le-pow_right {n = 2} (omega arith) {i = suc b} {j = 64} (omega arith),
)

test_bit-digit : (w b : ℕ) → test_bit w b ≡ (digit b w == 1)
unfolding test_bit
test_bit-digit w b = elim (ℕ_discrete (digit b w) 0) [
  | yes e ↦ ground (arith, bit_and-pow b w, e)
  | no ne ↦ ground (arith, bit_and-pow b w, one ne, pow-positive b)
]
  where
    one : digit b w ≢ 0 → digit b w ≡ 1
    one ne = omega (arith, digit-lt b w)

pub test_bit-set_bit : (w b j : ℕ) → test_bit (set_bit w b) j ≡ (j == b || test_bit w j)
unfolding set_bit
test_bit-set_bit w b j =
    test_bit-digit (set_bit w b) j
    ∙ ground (arith, digit-bit_or j w (2 ^ b), digit-pow j b, test_bit-digit w j, digit-lt j w)

pub test_bit-clear_bit :
    (w b j : ℕ) → b < 64 → j < 64 → test_bit (clear_bit w b) j ≡ (not (j == b) && test_bit w j)
unfolding clear_bit
test_bit-clear_bit w b j h k =
    test_bit-digit (clear_bit w b) j
    ∙ ground (
      arith,
      digit-bit_and j w (all_ones - 2 ^ b),
      digit-not 64 j (2 ^ b) (pow-lt b h) k,
      digit-pow j b,
      test_bit-digit w j,
      digit-lt j w,
    )

pub set_bit-lt : (w b : ℕ) → w < 2 ^ 64 → b < 64 → set_bit w b < 2 ^ 64
unfolding set_bit
set_bit-lt w b h k = bit_or-lt 64 w (2 ^ b) h (pow-lt b k)

pub clear_bit-lt : (w b : ℕ) → w < 2 ^ 64 → clear_bit w b < 2 ^ 64
unfolding clear_bit
clear_bit-lt w b h = omega (arith, bit_and-le {m = w} w (all_ones - 2 ^ b) (omega arith))

-- A word whose bits are all set is `~0UL`.
pub all_set : (w : ℕ) → w < 2 ^ 64 → ((j : ℕ) → j < 64 → test_bit w j ≡ true) → w ≡ all_ones
all_set w h f = omega (
  arith,
  digit-eq_zero {w = 64} (all_ones - w) (omega arith)
      (λ j lt. ground (arith, digit-not 64 j w h lt, test_bit-digit w j, f j lt)),
)

pub test_bit-all_ones : (j : ℕ) → j < 64 → test_bit all_ones j ≡ true
test_bit-all_ones j h =
    test_bit-digit all_ones j ∙ ground (arith, digit-not 64 j 0 (omega arith) h, digit-zero j)

pub test_bit-zero : (j : ℕ) → test_bit 0 j ≡ false
test_bit-zero j = test_bit-digit 0 j ∙ ground (arith, digit-zero j)
