-- ===== src/Mm/Buddy/Cover.antt =====
-- Which pages the free lists of the buddy allocator cover.
use native.Mathlib.Decide.{ℕ_discrete}
use native.Mathlib.Nat.{pow-suc}
use minix_rv.Prelude.{
  ℕ, zero, suc, ◌+◌, ◌^◌, ◌≤◌, ◌<◌, ◌≡◌, ◌≢◌, refl, sym, ap, ◌∙◌, inl, inr, List, [], ◌∷◌, true,
  false, ◌&&◌, arith, ltb, leb, ◌==◌, if◌then◌else◌, Bool-cases, occurs, remove,
}
use minix_rv.Fs.Base.{update}

-- 1 for a page `i` of the block of 2 ^ `o` pages at `p`, and 0 for another.
abbrev pub inside : ℕ → ℕ → ℕ → ℕ
inside p o i = if leb p i && ltb i (p + 2 ^ o) then 1 else 0

abbrev pub cover_list : ℕ → List ℕ → ℕ → ℕ
cover_list o [] i = 0
cover_list o (p ∷ l) i = inside p o i + cover_list o l i

-- In how many blocks of the lists of the orders below `n` the page `i` is.
abbrev pub cover : (ℕ → List ℕ) → ℕ → ℕ → ℕ
cover lists zero i = 0
cover lists (suc n) i = cover_list n (lists n) i + cover lists n i

-- A block consists of its two halves.
pub inside-halves : (p o i : ℕ) → inside p (suc o) i ≡ inside p o i + inside (p + 2 ^ o) o i
inside-halves p o i = ground (arith, pow-suc 2 o)

pub pow-positive : (o : ℕ) → 0 < 2 ^ o
pow-positive zero = omega arith
pow-positive (suc o) = omega (arith, pow-suc 2 o, pow-positive o)

pub inside_self : (p o : ℕ) → inside p o p ≡ 1
inside_self p o = ground (arith, pow-positive o)

pub cover_list-remove :
    (p o : ℕ) (l : List ℕ) (i : ℕ)
    → 0 < occurs p l
    → cover_list o (remove p l) i + inside p o i ≡ cover_list o l i
unfolding remove
cover_list-remove p o [] i h = absurd (omega arith)
cover_list-remove p o (q ∷ l) i h = elim (Bool-cases (q == p)) [
  | inl same ↦ rw same (first same)
  | inr other ↦ rw other (omega (arith, cover_list-remove p o l i (behind other)))
]
  where
    first : (q == p) ≡ true → cover_list o l i + inside p o i ≡ inside q o i + cover_list o l i
    first same = ground arith

    behind : (q == p) ≡ false → 0 < occurs p l
    behind other = ground arith

pub occurs-le-cover_list : (p o : ℕ) (l : List ℕ) → occurs p l ≤ cover_list o l p
occurs-le-cover_list p o [] = omega arith
occurs-le-cover_list p o (q ∷ l) = elim (ℕ_discrete q p) [
  | yes same ↦ ground (arith, occurs-le-cover_list p o l, pow-positive o)
  | no other ↦ ground (arith, occurs-le-cover_list p o l)
]

cover-outside :
    (lists : ℕ → List ℕ) (n o : ℕ) (l : List ℕ) (i : ℕ)
    → n ≤ o
    → cover (update lists o l) n i ≡ cover lists n i
cover-outside lists zero o l i h = refl
cover-outside lists (suc n) o l i h = ground (arith, cover-outside lists n o l i (omega arith))

pub cover-update :
    (lists : ℕ → List ℕ) (n o : ℕ) (l : List ℕ) (i : ℕ)
    → o < n
    → cover (update lists o l) n i + cover_list o (lists o) i ≡ cover lists n i + cover_list o l i
cover-update lists zero o l i h = absurd (omega arith)
cover-update lists (suc n) o l i h = elim (ℕ_discrete o n) [
  | yes here ↦ omega (
    arith,
    cover-outside lists n o l i (omega (arith, here)),
    ap (λ (k : List ℕ). cover_list n k i)
        (ap (update lists o l) (sym here) ∙ update-here lists o l),
    ap (λ (k : ℕ). cover_list k (lists k) i) here,
    ap (λ (k : ℕ). cover_list k l i) here,
  )
  | no other ↦ omega (
    arith,
    cover-update lists n o l i (omega arith),
    ap (λ (k : List ℕ). cover_list n k i) (update-other lists o n l other),
  )
]
  where
    update-here : (f : ℕ → List ℕ) (k : ℕ) (a : List ℕ) → update f k a k ≡ a
    update-here f k a = ground arith

    update-other : (f : ℕ → List ℕ) (k j : ℕ) (a : List ℕ) → k ≢ j → update f k a j ≡ f j
    update-other f k j a h = ground arith

pub cover_list-le-cover :
    (lists : ℕ → List ℕ) (n o i : ℕ) → o < n → cover_list o (lists o) i ≤ cover lists n i
cover_list-le-cover lists zero o i h = absurd (omega arith)
cover_list-le-cover lists (suc n) o i h = elim (ℕ_discrete o n) [
  | yes here ↦ omega (arith, ap (λ (k : ℕ). cover_list k (lists k) i) here)
  | no other ↦ omega (arith, cover_list-le-cover lists n o i (omega arith))
]

-- Two lists of different orders.
pub cover_two :
    (lists : ℕ → List ℕ) (n o o' i : ℕ)
    → o < n
    → o' < n
    → o ≢ o'
    → cover_list o (lists o) i + cover_list o' (lists o') i ≤ cover lists n i
cover_two lists zero o o' i h k ne = absurd (omega arith)
cover_two lists (suc n) o o' i h k ne = elim (ℕ_discrete o n) [
  | yes here ↦ omega (
    arith,
    ap (λ (m : ℕ). cover_list m (lists m) i) here,
    cover_list-le-cover lists n o' i (omega (arith, here)),
  )
  | no other ↦ elim (ℕ_discrete o' n) [
    | yes here ↦ omega (
      arith,
      ap (λ (m : ℕ). cover_list m (lists m) i) here,
      cover_list-le-cover lists n o i (omega (arith, here)),
    )
    | no away ↦ omega (arith, cover_two lists n o o' i (omega arith) (omega arith) ne)
  ]
]
