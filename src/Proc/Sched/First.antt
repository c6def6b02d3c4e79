-- ===== src/Proc/Sched/First.antt =====
-- `find_first_bit` of kernel/sched_new.c.
use minix_rv.Prelude.{
  ℕ, zero, suc, ◌+◌, ◌*◌, ◌/◌, ◌%◌, ◌≤◌, ◌<◌, ◌≡◌, ap, ◌∙◌, inl, inr, Bool, true, false, Option,
  none, some, arith, ltb, ◌==◌, if◌then◌else◌, Bool-cases, Option-cases,
}
use native.Mathlib.Decide.{ℕ_discrete}
use minix_rv.Proc.Word.{test_bit, test_bit-zero}
use minix_rv.Proc.Sched.{first_one, find_first_bit_from, find_first_bit}

-- The bit `nr` of a bitmap.
unfoldable pub bit_of : (ℕ → ℕ) → ℕ → Bool
bit_of bitmap nr = test_bit (bitmap (nr / 64)) (nr % 64)

first_one-some :
    (n word bit : ℕ) {r : ℕ}
    → first_one n word bit ≡ some r
    → (bit ≤ r)
      × (r < bit + n)
      × (test_bit word r ≡ true)
      × ((j : ℕ) → bit ≤ j → j < r → test_bit word j ≡ false)
unfolding first_one
first_one-some zero word bit e = ground arith
first_one-some (suc n) word bit {r} e = elim (Bool-cases (test_bit word bit)) [
  | inl one ↦ (ground arith, ground arith, ground arith, λ j h k. absurd (ground arith))
  | inr zero_bit ↦
      let (low, high, set, others) = first_one-some n word (suc bit) {r = r} (ground arith) in
      (
        omega arith,
        omega arith,
        set,
        λ j h k. elim (ℕ_discrete j bit) [
          | yes here ↦ ground (arith, here, zero_bit)
          | no later ↦ others j (omega arith) k
        ],
      )
]

first_one-none :
    (n word bit : ℕ)
    → first_one n word bit ≡ none
    → (j : ℕ) → bit ≤ j
    → j < bit + n
    → test_bit word j ≡ false
unfolding first_one
first_one-none zero word bit e j h k = absurd (omega arith)
first_one-none (suc n) word bit e j h k = elim (Bool-cases (test_bit word bit)) [
  | inl one ↦ ground arith
  | inr zero_bit ↦ elim (ℕ_discrete j bit) [
    | yes here ↦ ground (arith, here, zero_bit)
    | no later ↦ first_one-none n word (suc bit) (ground arith) j (omega arith) (omega arith)
  ]
]

-- `r` is the first bit that is set from `low` on and below `size`, or `size` if there is none.
pub record IsFirst (bitmap : ℕ → ℕ) (low size r : ℕ) : Type 0 where
  pub bound : r ≤ size
  pub set : r < size → bit_of bitmap r ≡ true
  pub clear : (j : ℕ) → low ≤ j → j < r → bit_of bitmap j ≡ false

-- What is searched for in one word.
word_first : ℕ → Option ℕ
word_first word = if word == 0 then none else first_one 64 word 0

word_first-none : (word : ℕ) → word_first word ≡ none → (j : ℕ) → j < 64 → test_bit word j ≡ false
unfolding word_first
word_first-none word e j h = elim (Bool-cases (word == 0)) [
  | inl no_bit ↦ ground (arith, no_bit, test_bit-zero j)
  | inr bits ↦ first_one-none 64 word 0 (ground arith) j (omega arith) (omega arith)
]

word_first-some :
    (word : ℕ) {r : ℕ}
    → word_first word ≡ some r
    → (r < 64) × (test_bit word r ≡ true) × ((j : ℕ) → j < r → test_bit word j ≡ false)
unfolding word_first
word_first-some word {r} e =
    let (low, high, set, others) = first_one-some 64 word 0 {r = r} (ground arith) in
    (omega arith, set, λ j h. others j (omega arith) h)

bit_of-word :
    (bitmap : ℕ → ℕ) (i bit : ℕ) → bit < 64 → bit_of bitmap (i * 64 + bit) ≡ test_bit (bitmap i) bit
unfolding bit_of
bit_of-word bitmap i bit h =
    ap (λ k. test_bit (bitmap k) ((i * 64 + bit) % 64)) (omega arith)
    ∙ ap (test_bit (bitmap i)) (omega arith)

-- A bit of the word `i`.
in_word :
    (bitmap : ℕ → ℕ) (i j : ℕ) (b : Bool)
    → i * 64 ≤ j
    → j < i * 64 + 64
    → test_bit (bitmap i) (j % 64) ≡ b
    → bit_of bitmap j ≡ b
unfolding bit_of
in_word bitmap i j b h k e = ap (λ t. test_bit (bitmap t) (j % 64)) (omega arith) ∙ e

find_first_bit_from-IsFirst :
    (bitmap : ℕ → ℕ) (size n i : ℕ)
    → size ≤ (i + n) * 64
    → IsFirst bitmap (i * 64) size (find_first_bit_from bitmap size n i)
unfolding find_first_bit_from word_first
find_first_bit_from-IsFirst bitmap size zero i h = record {
  bound = omega arith;
  set = λ k. absurd (omega arith);
  clear = λ j l k. absurd (omega arith);
}
find_first_bit_from-IsFirst bitmap size (suc n) i h = elim (Option-cases (word_first (bitmap i))) [
  | inl nothing ↦
      let ih = find_first_bit_from-IsFirst bitmap size n (suc i) (omega arith) in
      rw (nothing, find_first_bit_from)
        (record {
          bound = ih.bound;
          set = ih.set;
          clear = λ j l k. elim (Bool-cases (ltb j (i * 64 + 64))) [
            | inl here ↦
                in_word bitmap i j false l (ground arith)
                  (word_first-none (bitmap i) nothing (j % 64) (omega arith))
            | inr later ↦ ih.clear j (ground arith) k
          ];
        })
  | inr (bit, found) ↦
      let (low, set, others) = word_first-some (bitmap i) {r = bit} found in
      rw (found, find_first_bit_from)
        (elim (Bool-cases (ltb (i * 64 + bit) size)) [
          | inl inside ↦ rw inside (record {
            bound = ground arith;
            set = λ _. bit_of-word bitmap i bit low ∙ set;
            clear =
                λ j l k. in_word bitmap i j false l (omega arith) (others (j % 64) (omega arith));
          })
          | inr outside ↦ rw outside (record {
            bound = omega arith;
            set = λ k. absurd (omega arith);
            clear =
                λ j l k. in_word bitmap i j false l (ground arith) (others (j % 64) (ground arith));
          })
        ])
]

-- `find_first_bit` gives the first bit that is set below `size`, and `size` if none is.
pub find_first_bit-IsFirst :
    (bitmap : ℕ → ℕ) (size : ℕ) → IsFirst bitmap 0 size (find_first_bit bitmap size)
unfolding find_first_bit
find_first_bit-IsFirst bitmap size =
    find_first_bit_from-IsFirst bitmap size ((size + 63) / 64) 0 (omega arith)
