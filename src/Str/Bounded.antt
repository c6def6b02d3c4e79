-- ===== src/Str/Bounded.antt =====
-- `strncpy` of lib/string.c, whose first loop leaves the count one too high at a short source.
use minix_rv.Prelude.{
  ℕ, zero, suc, ◌+◌, ◌-◌, ◌≤◌, ◌<◌, ◌≡◌, refl, ap, List, [], ◌∷◌, ◌++◌, none, some, arith, length,
  take, drop, replicate, NoNul,
}
use minix_rv.Str.{push_byte, pad, strncpy}

-- The second loop writes `n` NULs, or faults if the object is shorter.
pad_lem :
    (d : List ℕ) (n : ℕ)
    → ((n ≤ length d) → pad d n ≡ some (replicate n 0 ++ drop n d))
      × ((length d < n) → pad d n ≡ none)
unfolding pad
pad_lem d zero = (λ _. refl, λ h. absurd (omega arith))
pad_lem [] (suc n) = (λ h. absurd (omega arith), λ _. refl)
pad_lem (x ∷ d) (suc n) =
    let ih = pad_lem d n in
    (λ h. ap (push_byte 0) (ih.0 (omega arith)), λ h. ap (push_byte 0) (ih.1 (omega arith)))

-- A source of at least `n` characters is cut to them: exactly `n` bytes are written, and no NUL.
pub strncpy_long :
    (d s r : List ℕ) (n : ℕ)
    → NoNul s
    → n ≤ length s
    → n ≤ length d
    → strncpy d (s ++ 0 ∷ r) n ≡ some (take n s ++ drop n d)
unfolding strncpy
strncpy_long d s r zero h k m = refl
strncpy_long [] s r (suc n) h k m = absurd (omega arith)
strncpy_long (x ∷ d) [] r (suc n) h k m = absurd (omega arith)
strncpy_long (x ∷ d) (c ∷ s) r (suc n) h k m = ground (arith, strncpy_long d s r n)

-- A source of fewer than `n` characters makes `strncpy` write one byte more than `n`: the characters,
-- then NULs up to `n + 1` bytes. A destination of at most `n` bytes is overrun.
pub strncpy_short :
    (d s r : List ℕ) (n : ℕ)
    → NoNul s
    → length s < n
    → ((n < length d)
        → strncpy d (s ++ 0 ∷ r) n ≡ some (s ++ replicate (n + 1 - length s) 0 ++ drop (n + 1) d))
      × ((length d ≤ n) → strncpy d (s ++ 0 ∷ r) n ≡ none)
unfolding strncpy
strncpy_short d s r zero h k = absurd (omega arith)
strncpy_short [] s r (suc n) h k = (λ m. absurd (omega arith), λ _. refl)
strncpy_short (x ∷ d) [] r (suc n) h k =
    (λ m. ground (arith, pad_lem d (suc n)), λ m. ground (arith, pad_lem d (suc n)))
strncpy_short (x ∷ d) (c ∷ s) r (suc n) h k =
    let ih = strncpy_short d s r n h.1 (omega arith) in
    (λ m. ground (arith, ih.0), λ m. ground (arith, ih.1))
