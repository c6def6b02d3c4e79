-- ===== src/Prelude/Bits.antt =====
-- Binary digits: the laws of `&`, `|`, `^` and of shifted ones, each stated for the digit at a place.
use Prim.Native.Nat.{
  ℕ, zero, suc, ◌+◌, ◌-◌, ◌*◌, ◌/◌, ◌%◌, ◌^◌, ◌≤◌, ◌<◌, min, max, bit_and, bit_or, digits,
  bit_and-bitwise, bit_or-bitwise, bit_xor, bit_xor-bitwise, differ,
}
use mathlib.Core.Path.{◌≡◌, refl, sym, ap, ap₂, ◌∙◌}
use mathlib.Core.Logic.{◌≢◌}
use native.Mathlib.Decide.{ℕ_discrete}
use native.Mathlib.Nat.{pow-suc, suc-add, one-le-pow, mul-one, mul_assoc}
use native.Mathlib.Omega.{arith}
use minix_rv.Prelude.Tests.{◌==◌, if◌then◌else◌}

-- The digit of `a` at place `k`, which is `(a >> k) & 1`.
pub digit : ℕ → ℕ → ℕ
digit zero a = a % 2
digit (suc k) a = digit k (a / 2)

-- The count of digits that `digits` is given does not matter once it suffices.
module _ (rest : ℕ → ℕ) (op : ℕ → ℕ → ℕ) where
  enough : {m n a : ℕ} (b : ℕ) → a ≤ m → a ≤ n → digits rest op m a b ≡ digits rest op n a b
  enough {m = zero} {n = zero} {a} b p q = refl
  enough {m = zero} {n = suc n} {a = zero} b p q = refl
  enough {m = suc m} {n = zero} {a = zero} b p q = refl
  enough {m = suc m} {n = suc n} {a = zero} b p q = refl
  enough {m = zero} {n = suc n} {a = suc a} b p q = absurd (omega arith)
  enough {m = suc m} {n = zero} {a = suc a} b p q = absurd (omega arith)
  enough {m = suc m} {n = suc n} {a = suc a} b p q =
      ap (λ t. t * 2 + op (suc a % 2) (b % 2))
        (enough {m = m} {n = n} {a = suc a / 2} (b / 2) (omega arith) (omega arith))

pub bit_and_step : (a b : ℕ) → bit_and a b ≡ bit_and (a / 2) (b / 2) * 2 + min (a % 2) (b % 2)
bit_and_step zero b = omega (arith, bit_and-bitwise 0 b, bit_and-bitwise 0 (b / 2))
bit_and_step (suc a) b = omega (
  arith,
  bit_and-bitwise (suc a) b,
  bit_and-bitwise (suc a / 2) (b / 2),
  enough (λ _. zero) min {m = a} {n = suc a / 2} {a = suc a / 2} (b / 2) (omega arith)
      (omega arith),
)

pub bit_or_step : (a b : ℕ) → bit_or a b ≡ bit_or (a / 2) (b / 2) * 2 + max (a % 2) (b % 2)
bit_or_step zero b = omega (arith, bit_or-bitwise 0 b, bit_or-bitwise 0 (b / 2))
bit_or_step (suc a) b = omega (
  arith,
  bit_or-bitwise (suc a) b,
  bit_or-bitwise (suc a / 2) (b / 2),
  enough (λ y. y) max {m = a} {n = suc a / 2} {a = suc a / 2} (b / 2) (omega arith) (omega arith),
)

pub digit-bit_and : (k a b : ℕ) → digit k (bit_and a b) ≡ min (digit k a) (digit k b)
unfolding digit
digit-bit_and zero a b = omega (arith, bit_and_step a b)
digit-bit_and (suc k) a b =
    ap (digit k) (omega (arith, bit_and_step a b)) ∙ digit-bit_and k (a / 2) (b / 2)

pub digit-bit_or : (k a b : ℕ) → digit k (bit_or a b) ≡ max (digit k a) (digit k b)
unfolding digit
digit-bit_or zero a b = omega (arith, bit_or_step a b)
digit-bit_or (suc k) a b =
    ap (digit k) (omega (arith, bit_or_step a b)) ∙ digit-bit_or k (a / 2) (b / 2)

pub digit-zero : (k : ℕ) → digit k 0 ≡ 0
unfolding digit
digit-zero zero = refl
digit-zero (suc k) = digit-zero k

pub digit-lt : (k a : ℕ) → digit k a < 2
unfolding digit
digit-lt zero a = omega arith
digit-lt (suc k) a = digit-lt k (a / 2)

half-pow : (k : ℕ) → 2 ^ suc k / 2 ≡ 2 ^ k
half-pow k = omega (arith, pow-suc 2 k)

-- `1UL << k` has one digit.
pub digit-pow : (j k : ℕ) → digit j (2 ^ k) ≡ (if j == k then 1 else 0)
unfolding digit
digit-pow zero zero = refl
digit-pow zero (suc k) = ground (arith, pow-suc 2 k)
digit-pow (suc j) zero = digit-zero j ∙ ground arith
digit-pow (suc j) (suc k) = ap (digit j) (half-pow k) ∙ digit-pow j k ∙ ground arith

-- `~a` of a `w`-bit word turns every digit over.
pub digit-not : (w k a : ℕ) → a < 2 ^ w → k < w → digit k (2 ^ w - 1 - a) ≡ 1 - digit k a
unfolding digit
digit-not zero k a h m = absurd (omega arith)
digit-not (suc w) zero a h m = omega (arith, pow-suc 2 w)
digit-not (suc w) (suc k) a h m =
    ap (digit k) (omega (arith, pow-suc 2 w))
    ∙ digit-not w k (a / 2) (omega (arith, pow-suc 2 w)) (omega arith)

bit_and-zero : {m : ℕ} (a : ℕ) → a ≤ m → bit_and a 0 ≡ 0
bit_and-zero {m} zero h = refl
bit_and-zero {m = zero} (suc a) h = absurd (omega arith)
bit_and-zero {m = suc m} (suc a) h =
    omega (arith, bit_and_step (suc a) 0, bit_and-zero {m = m} (suc a / 2) (omega arith))

-- `a & (1UL << k)` keeps the digit at its place.
pub bit_and-pow : (k a : ℕ) → bit_and a (2 ^ k) ≡ digit k a * 2 ^ k
unfolding digit
bit_and-pow zero a = omega (arith, bit_and_step a 1, bit_and-zero {m = a} (a / 2) (omega arith))
bit_and-pow (suc k) a = omega (
  arith,
  bit_and_step a (2 ^ suc k),
  ap (bit_and (a / 2)) (half-pow k),
  bit_and-pow k (a / 2),
  ap (λ (t : ℕ). digit k (a / 2) * t) (pow-suc 2 k),
  pow-suc 2 k,
)

-- A word with no digit is 0, and one below `2 ^ w` has none from place `w` on.
pub digit-eq_zero : {w : ℕ} (a : ℕ) → a < 2 ^ w → ((k : ℕ) → k < w → digit k a ≡ 0) → a ≡ 0
unfolding digit
digit-eq_zero {w = zero} a h none_set = omega arith
digit-eq_zero {w = suc w} a h none_set = omega (
  arith,
  none_set 0 (omega arith),
  digit-eq_zero {w = w} (a / 2) (omega (arith, pow-suc 2 w))
      (λ k lt. none_set (suc k) (omega arith)),
)

pub bit_or-lt : (w a b : ℕ) → a < 2 ^ w → b < 2 ^ w → bit_or a b < 2 ^ w
bit_or-lt zero zero b h k = omega (arith, bit_or-bitwise 0 b)
bit_or-lt zero (suc a) b h k = absurd (omega arith)
bit_or-lt (suc w) a b h k = omega (
  arith,
  bit_or_step a b,
  pow-suc 2 w,
  bit_or-lt w (a / 2) (b / 2) (omega (arith, pow-suc 2 w)) (omega (arith, pow-suc 2 w)),
)

pub bit_and-le : {m : ℕ} (a b : ℕ) → a ≤ m → bit_and a b ≤ a
bit_and-le {m} zero b h = omega (arith, bit_and-bitwise 0 b)
bit_and-le {m = zero} (suc a) b h = absurd (omega arith)
bit_and-le {m = suc m} (suc a) b h =
    omega (arith, bit_and_step (suc a) b, bit_and-le {m = m} (suc a / 2) (b / 2) (omega arith))

pub bit_and_even : (a b : ℕ) → bit_and a (2 * b) ≡ 2 * bit_and (a / 2) b
bit_and_even a b = bit_and_step a (2 * b) ∙ omega (arith, ap (bit_and (a / 2)) (halved b))
  where
    halved : (b : ℕ) → 2 * b / 2 ≡ b
    halved b = omega arith

-- `a & ~((1UL << k) - 1)` is a multiple of `1UL << k`, and is `a` where `k` is 0.
pub bit_and-multiple : (k j a : ℕ) → (q : ℕ) × (bit_and a (2 ^ (k + j) - 2 ^ k) ≡ q * 2 ^ k)
bit_and-multiple zero j a = (bit_and a (2 ^ (0 + j) - 1), omega arith)
bit_and-multiple (suc k) j a =
    let (q, e) = bit_and-multiple k j (a / 2) in
    (
      q,
      ap (bit_and a) doubled
          ∙ bit_and_even a (2 ^ (k + j) - 2 ^ k)
          ∙ omega (arith, e, pow-suc 2 k, ap (λ t. q * t) (pow-suc 2 k)),
    )
  where
    doubled : 2 ^ (suc k + j) - 2 ^ suc k ≡ 2 * (2 ^ (k + j) - 2 ^ k)
    doubled = omega (arith, pow-suc 2 k, pow-suc 2 (k + j), ap (λ t. 2 ^ t) (suc-add k j))

pub bit_and-ones : (w a : ℕ) → a < 2 ^ w → bit_and a (2 ^ w - 1) ≡ a
bit_and-ones zero a h =
    omega (arith, bit_and-zero {m = a} a (omega arith), ap (λ t. bit_and t 0) (small a h))
  where
    small : (a : ℕ) → a < 2 ^ 0 → a ≡ 0
    small a h = omega arith
bit_and-ones (suc w) a h = omega (
  arith,
  bit_and_step a (2 ^ suc w - 1),
  ap (bit_and (a / 2)) (halved w),
  bit_and-ones w (a / 2) (omega (arith, pow-suc 2 w)),
  pow-suc 2 w,
  one-le-pow w 2 (omega arith),
)
  where
    halved : (w : ℕ) → (2 ^ suc w - 1) / 2 ≡ 2 ^ w - 1
    halved w = omega (arith, pow-suc 2 w, one-le-pow w 2 (omega arith))

pub bit_xor_step : (a b : ℕ) → bit_xor a b ≡ bit_xor (a / 2) (b / 2) * 2 + differ (a % 2) (b % 2)
bit_xor_step zero b = omega (arith, bit_xor-bitwise 0 b, bit_xor-bitwise 0 (b / 2))
bit_xor_step (suc a) b = omega (
  arith,
  bit_xor-bitwise (suc a) b,
  bit_xor-bitwise (suc a / 2) (b / 2),
  enough (λ y. y) differ {m = a} {n = suc a / 2} {a = suc a / 2} (b / 2) (omega arith)
      (omega arith),
)

bit_xor-zero : {m : ℕ} (a : ℕ) → a ≤ m → bit_xor a 0 ≡ a
bit_xor-zero {m} zero h = omega (arith, bit_xor-bitwise 0 0)
bit_xor-zero {m = zero} (suc a) h = absurd (omega arith)
bit_xor-zero {m = suc m} (suc a) h = omega (
  arith,
  bit_xor_step (suc a) 0,
  bit_xor-zero {m = m} (suc a / 2) (omega arith),
  differ-zero (suc a % 2),
)
  where
    differ-zero : (x : ℕ) → differ x 0 ≡ x
    differ-zero zero = refl
    differ-zero (suc x) = refl

-- `a ^ 1` turns the last digit over.
pub bit_xor-one : (a : ℕ) → bit_xor a 1 ≡ (if a % 2 == 0 then a + 1 else a - 1)
bit_xor-one a = elim (ℕ_discrete (a % 2) 0) [
  | yes even ↦ ground (
    arith,
    bit_xor_step a 1,
    bit_xor-zero {m = a} (a / 2) (omega arith),
    ap (λ t. differ t 1) even,
    even,
  )
  | no ne ↦ ground (
    arith,
    bit_xor_step a 1,
    bit_xor-zero {m = a} (a / 2) (omega arith),
    ap (λ t. differ t 1) (odd ne),
    odd ne,
  )
]
  where
    odd : a % 2 ≢ 0 → a % 2 ≡ 1
    odd ne = omega (arith, ne)

pub bit_xor-multiple : (k a : ℕ) → bit_xor (a * 2 ^ k) (2 ^ k) ≡ bit_xor a 1 * 2 ^ k
bit_xor-multiple zero a = ap (λ t. bit_xor t 1) (mul-one a) ∙ sym (mul-one (bit_xor a 1))
bit_xor-multiple (suc k) a =
    bit_xor_step (a * 2 ^ suc k) (2 ^ suc k)
    ∙ omega (
      arith,
      twice a,
      twice (bit_xor a 1),
      pow-suc 2 k,
      ap₂ bit_xor (half a) (half-pow k) ∙ bit_xor-multiple k a,
      ap₂ differ (even a) (even_pow k),
    )
  where
    twice : (a : ℕ) → a * 2 ^ suc k ≡ a * 2 ^ k * 2
    twice a = ap (λ t. a * t) (pow-suc 2 k) ∙ sym (mul_assoc a (2 ^ k) 2)

    half : (a : ℕ) → a * 2 ^ suc k / 2 ≡ a * 2 ^ k
    half a = omega (arith, twice a)

    even : (a : ℕ) → a * 2 ^ suc k % 2 ≡ 0
    even a = omega (arith, twice a)

    even_pow : (k : ℕ) → 2 ^ suc k % 2 ≡ 0
    even_pow k = omega (arith, pow-suc 2 k)

bit_or-zero : (a : ℕ) → bit_or a 0 ≡ a
bit_or-zero a = go {m = a} a (omega arith)
  where
    go : {m : ℕ} (a : ℕ) → a ≤ m → bit_or a 0 ≡ a
    go {m} zero h = omega (arith, bit_or-bitwise 0 0)
    go {m = zero} (suc a) h = absurd (omega arith)
    go {m = suc m} (suc a) h =
        omega (arith, bit_or_step (suc a) 0, go {m = m} (suc a / 2) (omega arith))

-- Flags below `2 ^ k` beside a multiple of `2 ^ k`.
pub bit_or-add : (k x f : ℕ) → f < 2 ^ k → bit_or (x * 2 ^ k) f ≡ x * 2 ^ k + f
bit_or-add zero x f h =
    ap (bit_or (x * 2 ^ 0)) (none_set f h) ∙ bit_or-zero (x * 2 ^ 0) ∙ omega (arith, none_set f h)
  where
    none_set : (f : ℕ) → f < 2 ^ 0 → f ≡ 0
    none_set f h = omega (arith, h)
bit_or-add (suc k) x f h =
    bit_or_step (x * 2 ^ suc k) f
    ∙ omega (
      arith,
      twice,
      pow-suc 2 k,
      ap (λ t. bit_or t (f / 2)) half ∙ bit_or-add k x (f / 2) (omega (arith, h, pow-suc 2 k)),
      ap (λ t. max t (f % 2)) even,
    )
  where
    twice : x * 2 ^ suc k ≡ x * 2 ^ k * 2
    twice = ap (λ t. x * t) (pow-suc 2 k) ∙ sym (mul_assoc x (2 ^ k) 2)

    half : x * 2 ^ suc k / 2 ≡ x * 2 ^ k
    half = omega (arith, twice)

    even : x * 2 ^ suc k % 2 ≡ 0
    even = omega (arith, twice)

pub bit_and-low : (k x f m : ℕ) → f < 2 ^ k → m < 2 ^ k → bit_and (x * 2 ^ k + f) m ≡ bit_and f m
bit_and-low zero x f m h l =
    ap (bit_and (x * 2 ^ 0 + f)) (none_set m l)
    ∙ bit_and-zero {m = x * 2 ^ 0 + f} (x * 2 ^ 0 + f) (omega arith)
    ∙ sym (ap (bit_and f) (none_set m l) ∙ bit_and-zero {m = f} f (omega arith))
  where
    none_set : (f : ℕ) → f < 2 ^ 0 → f ≡ 0
    none_set f h = omega (arith, h)
bit_and-low (suc k) x f m h l =
    bit_and_step (x * 2 ^ suc k + f) m
    ∙ omega (
      arith,
      bit_and_step f m,
      ap (λ t. bit_and t (m / 2)) half
          ∙ bit_and-low k x (f / 2) (m / 2) (omega (arith, h, pow-suc 2 k))
              (omega (arith, l, pow-suc 2 k)),
      ap (λ t. min t (m % 2)) even,
    )
  where
    twice : x * 2 ^ suc k ≡ x * 2 ^ k * 2
    twice = ap (λ t. x * t) (pow-suc 2 k) ∙ sym (mul_assoc x (2 ^ k) 2)

    half : (x * 2 ^ suc k + f) / 2 ≡ x * 2 ^ k + f / 2
    half = omega (arith, twice)

    even : (x * 2 ^ suc k + f) % 2 ≡ f % 2
    even = omega (arith, twice)
