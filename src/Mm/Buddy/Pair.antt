-- ===== src/Mm/Buddy/Pair.antt =====
-- `find_buddy` of arch/riscv64/mm/page_alloc.c: a block and its buddy are the halves of one block.
use mathlib.Core.Path.{subst}
use Prim.Native.Nat.{bit_xor}
use native.Mathlib.Nat.{pow-suc, mul_assoc, mul_comm, add-mul}
use native.Mathlib.Decide.{ℕ_discrete}
use minix_rv.Prelude.{
  ℕ, suc, ◌+◌, ◌-◌, ◌*◌, ◌/◌, ◌^◌, ◌%◌, ◌<◌, ◌≡◌, ◌≢◌, refl, sym, ap, ◌∙◌, inl, inr, some, arith,
  ◌==◌, ltb, if◌then◌else◌, ◌⊎◌,
}
use minix_rv.Prelude.Bits.{bit_xor-one, bit_xor-multiple}
use minix_rv.Mm.Buddy.{Buddy, page_to_pfn, find_buddy, pfn_to_page}
use minix_rv.Mm.Buddy.Cover.{pow-positive}
use minix_rv.Mm.Buddy.Invariant.{IsAligned, managed}

-- The blocks of order `o` at `p` and `q` are the halves of the block of the next order at `low`.
pub record ArePair (s : Buddy) (o p q low : ℕ) : Type 0 where
  pub lower : (if ltb q p then q else p) ≡ low
  pub order : ((low ≡ p) × (q ≡ p + 2 ^ o)) ⊎ ((low ≡ q) × (p ≡ q + 2 ^ o))
  pub aligned : IsAligned s (suc o) low
  pub bounded : q < managed s

-- What `find_buddy` finds, in frames.
buddy_frame :
    (s : Buddy) (p o b : ℕ)
    → find_buddy s p o ≡ some b
    → (b + s.start_pfn ≡ bit_xor (page_to_pfn s p) (2 ^ o)) × (b < managed s)
unfolding find_buddy pfn_to_page
buddy_frame s p o b e = ground (arith, e)

even_multiple : (o n : ℕ) → n % 2 ≡ 0 → n * 2 ^ o ≡ n / 2 * 2 ^ suc o
even_multiple o n even =
    ap (λ t. t * 2 ^ o) halves
    ∙ mul_assoc (n / 2) 2 (2 ^ o)
    ∙ ap (λ t. n / 2 * t) (mul_comm 2 (2 ^ o) ∙ sym (pow-suc 2 o))
  where
    halves : n ≡ n / 2 * 2
    halves = omega (arith, even)

pub find_buddy-ArePair :
    (s : Buddy) (o p b : ℕ)
    → IsAligned s o p
    → find_buddy s p o ≡ some b
    → ArePair s o p b (if ltb b p then b else p)
find_buddy-ArePair s o p b al e = elim (ℕ_discrete (al.quotient % 2) 0) [
  | yes even ↦ subst (ArePair s o p b) (sym (low_is even)) (record {
    lower = low_is even;
    order = inl (refl, above even);
    aligned = record {
      quotient = al.quotient / 2;
      multiple = al.multiple ∙ even_multiple o al.quotient even;
    };
    bounded = (buddy_frame s p o b e).1;
  })
  | no ne ↦ subst (ArePair s o p b) (sym (low_is_buddy ne)) (record {
    lower = low_is_buddy ne;
    order = inr (refl, below ne);
    aligned = record {
      quotient = (al.quotient - 1) / 2;
      multiple = down ne ∙ even_multiple o (al.quotient - 1) (less ne);
    };
    bounded = (buddy_frame s p o b e).1;
  })
]
  where
    frame :
        b + s.start_pfn
        ≡ (if al.quotient % 2 == 0 then al.quotient + 1 else al.quotient - 1) * 2 ^ o
    frame =
        (buddy_frame s p o b e).0
        ∙ ap (λ t. bit_xor t (2 ^ o)) al.multiple
        ∙ bit_xor-multiple o al.quotient
        ∙ ap (λ t. t * 2 ^ o) (bit_xor-one al.quotient)

    up : al.quotient % 2 ≡ 0 → b + s.start_pfn ≡ (al.quotient + 1) * 2 ^ o
    up even =
        subst (λ c. b + s.start_pfn ≡ (if c == 0 then al.quotient + 1 else al.quotient - 1) * 2 ^ o)
          even frame

    down : al.quotient % 2 ≢ 0 → b + s.start_pfn ≡ (al.quotient - 1) * 2 ^ o
    down ne =
        subst (λ c. b + s.start_pfn ≡ (if c == 0 then al.quotient + 1 else al.quotient - 1) * 2 ^ o)
          (odd ne) frame
      where
        odd : al.quotient % 2 ≢ 0 → al.quotient % 2 ≡ 1
        odd ne = omega (arith, ne)

    above : al.quotient % 2 ≡ 0 → b ≡ p + 2 ^ o
    above even = omega (arith, up even, al.multiple, add-mul al.quotient 1 (2 ^ o))

    less : al.quotient % 2 ≢ 0 → (al.quotient - 1) % 2 ≡ 0
    less ne = omega (arith, ne)

    back : (n : ℕ) → n % 2 ≢ 0 → n * 2 ^ o ≡ (n - 1) * 2 ^ o + 2 ^ o
    back n ne = ap (λ t. t * 2 ^ o) one_more ∙ add-mul (n - 1) 1 (2 ^ o) ∙ omega arith
      where
        one_more : n ≡ n - 1 + 1
        one_more = omega (arith, ne)

    below : al.quotient % 2 ≢ 0 → p ≡ b + 2 ^ o
    below ne = omega (arith, down ne, al.multiple, back al.quotient ne)

    low_is : al.quotient % 2 ≡ 0 → (if ltb b p then b else p) ≡ p
    low_is even = ground (arith, above even)

    low_is_buddy : al.quotient % 2 ≢ 0 → (if ltb b p then b else p) ≡ b
    low_is_buddy ne = ground (arith, below ne, pow-positive o)
