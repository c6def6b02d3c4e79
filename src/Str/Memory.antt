-- ===== src/Str/Memory.antt =====
-- What the `mem` routines of lib/string.c do to their objects, and when they stay inside them.
use minix_rv.Prelude.{
  ℕ, zero, suc, ◌≤◌, ◌<◌, ◌≡◌, refl, ap, ◌↔◌, List, [], ◌∷◌, ◌++◌, none, some, pos, arith, length,
  take, drop, replicate, Option-cases, inl, inr,
}
use minix_rv.Str.{push_byte, memcpy, memset, memcmp}

-- `memcpy` of `n` bytes between objects that hold `n` bytes each replaces exactly the first `n`
-- bytes of the destination by those of the source; from a shorter object it faults.
pub memcpy_lem :
    (d s : List ℕ) (n : ℕ)
    → ((n ≤ length d) → (n ≤ length s) → memcpy d s n ≡ some (take n s ++ drop n d))
      × (length d < n → memcpy d s n ≡ none)
      × (length s < n → memcpy d s n ≡ none)
unfolding memcpy
memcpy_lem d s zero = (λ _ _. refl, λ h. absurd (omega arith), λ h. absurd (omega arith))
memcpy_lem [] s (suc n) = (λ h _. absurd (omega arith), λ _. refl, λ _. refl)
memcpy_lem (x ∷ d) [] (suc n) = (λ _ h. absurd (omega arith), λ _. refl, λ _. refl)
memcpy_lem (x ∷ d) (c ∷ s) (suc n) =
    let ih = memcpy_lem d s n in
    (
      λ h k. ap (push_byte c) (ih.0 (omega arith) (omega arith)),
      λ h. ap (push_byte c) (ih.1 (omega arith)),
      λ h. ap (push_byte c) (ih.2 (omega arith)),
    )

-- `memset` of `n` bytes fills exactly the first `n` bytes of the object, and faults on a shorter one.
pub memset_lem :
    (p : List ℕ) (c n : ℕ)
    → ((n ≤ length p) → memset p c n ≡ some (replicate n c ++ drop n p))
      × (length p < n → memset p c n ≡ none)
unfolding memset
memset_lem p c zero = (λ _. refl, λ h. absurd (omega arith))
memset_lem [] c (suc n) = (λ h. absurd (omega arith), λ _. refl)
memset_lem (x ∷ p) c (suc n) =
    let ih = memset_lem p c n in
    (λ h. ap (push_byte c) (ih.0 (omega arith)), λ h. ap (push_byte c) (ih.1 (omega arith)))

-- `memcmp` returns 0 exactly if the first `n` bytes agree, where both objects hold `n` bytes.
pub memcmp_iff :
    (p q : List ℕ) (n : ℕ)
    → n ≤ length p
    → n ≤ length q
    → (memcmp p q n ≡ some (pos 0)) ↔ (take n p ≡ take n q)
unfolding memcmp
memcmp_iff p q zero h k = (λ _. refl, λ _. refl)
memcmp_iff [] q (suc n) h k = absurd (omega arith)
memcmp_iff (a ∷ p) [] (suc n) h k = absurd (omega arith)
memcmp_iff (a ∷ p) (b ∷ q) (suc n) h k =
    let ih = memcmp_iff p q n (omega arith) (omega arith) in
    (λ e. ground (arith, ih.0), λ e. ground (arith, ih.1))

-- A `memcpy` leaves an object of the same length.
pub length-memcpy :
    (d s : List ℕ) (n : ℕ) {out : List ℕ} → memcpy d s n ≡ some out → length out ≡ length d
unfolding memcpy
length-memcpy d s zero e = ground arith
length-memcpy [] s (suc n) e = ground arith
length-memcpy (x ∷ d) [] (suc n) e = ground arith
length-memcpy (x ∷ d) (c ∷ s) (suc n) e = elim (Option-cases (memcpy d s n)) [
  | inl stop ↦ ground arith
  | inr (rest, go) ↦ ground (arith, length-memcpy d s n go)
]
