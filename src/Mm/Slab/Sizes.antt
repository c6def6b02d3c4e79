-- ===== src/Mm/Slab/Sizes.antt =====
-- The sizes that `kmalloc` of arch/riscv64/mm/slab.c serves.
use mathlib.Core.Path.{subst}
use native.Mathlib.Decide.{ℕ_discrete}
use minix_rv.Fs.Base.{update}
use minix_rv.Prelude.{
  ltb, [], ◌∙◌, false, ap, ◌==◌, ◌+◌, ◌-◌, ◌/◌, ◌%◌, zero, ℕ, zero, suc, ◌*◌, ◌^◌, ◌≤◌, ◌<◌, ◌≡◌,
  refl, inl, inr, true, Option, some, none, arith, leb, leb→le, Bool-cases, ◌⊎◌,
}
use minix_rv.Mm.PageTable.{align, page_size, u64}
use minix_rv.Mm.Slab.Alloc.{nonzero}
use minix_rv.Mm.Slab.{
  Kmem, SlabCache, PageAllocator, kmem_cache_alloc, kmem_cache_create, set_cache, min_obj_size,
  slab_header, max_slab_caches,
}
use minix_rv.Mm.Slab.Kmalloc.{kmalloc, kmalloc_index, kmem_init, create_caches}

-- A cache of `kmem_init` has objects of at least the size.
index_fits :
    (size : ℕ)
    → size ≤ 2048
    → (i : ℕ) × (kmalloc_index size ≡ some i) × (i < 7) × (size ≤ 32 * 2 ^ i)
unfolding kmalloc_index
index_fits size small = elim (Bool-cases (leb size 32)) [
  | inl le ↦ (0, ground arith, omega arith, ground arith)
  | inr gt0 ↦ elim (Bool-cases (leb size 64)) [
    | inl le ↦ (1, ground arith, omega arith, ground arith)
    | inr gt1 ↦ elim (Bool-cases (leb size 128)) [
      | inl le ↦ (2, ground arith, omega arith, ground arith)
      | inr gt2 ↦ elim (Bool-cases (leb size 256)) [
        | inl le ↦ (3, ground arith, omega arith, ground arith)
        | inr gt3 ↦ elim (Bool-cases (leb size 512)) [
          | inl le ↦ (4, ground arith, omega arith, ground arith)
          | inr gt4 ↦ elim (Bool-cases (leb size 1024)) [
            | inl le ↦ (5, ground arith, omega arith, ground arith)
            | inr gt5 ↦ (6, ground arith, omega arith, ground arith)
          ]
        ]
      ]
    ]
  ]
]

index_large : (size : ℕ) → 2048 < size → size ≤ 4096 → kmalloc_index size ≡ some 7
unfolding kmalloc_index
index_large size lo hi = ground arith

module _ {A : Type 0} (m : PageAllocator A) where
  kmalloc-index :
      (size i : ℕ) (c : Option ℕ) (t : Kmem A)
      → 0 < size
      → t.slab_initialized ≡ true
      → kmalloc_index size ≡ some i
      → t.kmalloc_caches i ≡ c
      → kmalloc m size t ≡ kmem_cache_alloc m c t
  unfolding kmalloc
  kmalloc-index size i c t positive ready e there =
      simp (nonzero size positive, ready, e, there) refl

not_below : (i : ℕ) → ¬ (suc (suc (suc (suc (suc (suc (suc i)))))) < 7)
not_below i lt = omega arith

-- The sizes below 4096 are not changed, and a slab has room for an object.
size_of :
    (i : ℕ)
    → i < 7
    → (ltb (32 * 2 ^ i) min_obj_size ≡ false)
      × (align 8 ((32 * 2 ^ i + 7) % u64) ≡ 32 * 2 ^ i)
      × ((align 8 (page_size - slab_header) / (32 * 2 ^ i) == 0) ≡ false)
      × (leb max_slab_caches i ≡ false)
size_of zero lt = (refl, refl, refl, refl)
size_of (suc zero) lt = (refl, refl, refl, refl)
size_of (suc (suc zero)) lt = (refl, refl, refl, refl)
size_of (suc (suc (suc zero))) lt = (refl, refl, refl, refl)
size_of (suc (suc (suc (suc zero)))) lt = (refl, refl, refl, refl)
size_of (suc (suc (suc (suc (suc zero))))) lt = (refl, refl, refl, refl)
size_of (suc (suc (suc (suc (suc (suc zero)))))) lt = (refl, refl, refl, refl)
size_of (suc (suc (suc (suc (suc (suc (suc i))))))) lt = elim (not_below i lt) [ ]

equal : (i j : ℕ) → (i == j) ≡ true → i ≡ j
equal i j h = ground arith

apart : (j : ℕ) → j < 7 → (7 == j) ≡ false
apart j below = ground arith

at_end : (i : ℕ) → 0 + i ≡ 7 → i ≡ 7
at_end i h = omega arith

module _ {A : Type 0} (names : ℕ → ℕ) where
  round : ℕ → Kmem A → Kmem A
  round i s =
      let (c, created) = kmem_cache_create (names i) (32 * 2 ^ i) s in
      record created { kmalloc_caches = update created.kmalloc_caches i c }

  -- The first `i` caches are made.
  IsMade : ℕ → Kmem A → Type 0
  IsMade i s =
      (s.num_caches ≡ i)
      × ((j : ℕ) → j < i → (s.kmalloc_caches j ≡ some j) × ((s.all_caches j).obj_size ≡ 32 * 2 ^ j))

  IsMade-count : (i : ℕ) (s : Kmem A) → IsMade i s → s.num_caches ≡ i
  unfolding IsMade
  IsMade-count i s made = made.0

  made_cache : ℕ → Kmem A → SlabCache
  made_cache i s = record (s.all_caches s.num_caches) {
    name = names i;
    obj_size = 32 * 2 ^ i;
    alignment = 8;
    objs_per_slab = align 8 (page_size - slab_header) / (32 * 2 ^ i);
    slab_count = 0;
    slabs_partial = [];
    slabs_full = [];
    slabs_empty = [];
    total_allocs = 0;
    total_frees = 0;
  }

  with_cache : ℕ → Kmem A → Kmem A
  with_cache i s = record (set_cache s.num_caches (made_cache i s) s) {
    num_caches = suc s.num_caches;
    kmalloc_caches = update s.kmalloc_caches i (some s.num_caches);
  }

  round-with_cache : (i : ℕ) (s : Kmem A) → i < 7 → s.num_caches ≡ i → round i s ≡ with_cache i s
  unfolding round kmem_cache_create with_cache made_cache set_cache
  round-with_cache i s lt count =
      let (large, whole, fits, room) = size_of i lt in
      let room' = ap (λ k. leb max_slab_caches k) count ∙ room in
      rw room' (rw large (rw whole (rw fits refl)))

  with_cache-IsMade : (i : ℕ) (s : Kmem A) → IsMade i s → IsMade (suc i) (with_cache i s)
  unfolding IsMade with_cache made_cache set_cache
  with_cache-IsMade i s (count, made) = (
    ap suc count,
    λ j below. elim (ℕ_discrete i j) [
      | yes here ↦ ground arith
      | no other ↦ ground (arith, made j (omega arith))
    ],
  )

  round-IsMade : (i : ℕ) (s : Kmem A) → i < 7 → IsMade i s → IsMade (suc i) (round i s)
  round-IsMade i s lt made =
      rw (round-with_cache i s lt (IsMade-count i s made)) (with_cache-IsMade i s made)

  -- The first 7 caches are made, and there is no cache for 4096 bytes.
  IsLast : Kmem A → Type 0
  IsLast s =
      (s.kmalloc_caches 7 ≡ none)
      × ((j : ℕ) → j < 7 → (s.kmalloc_caches j ≡ some j) × ((s.all_caches j).obj_size ≡ 32 * 2 ^ j))

  round-IsLast : (s : Kmem A) → IsMade 7 s → IsLast (round 7 s)
  unfolding round IsMade IsLast kmem_cache_create set_cache
  round-IsLast s (count, made) = rw count (refl, λ j below. rw (apart j below) (made j below))

  create_caches-suc :
      (n i : ℕ) (s : Kmem A)
      → create_caches (suc n) i names s ≡ create_caches n (suc i) names (round i s)
  unfolding create_caches round
  create_caches-suc n i s = refl

  create_caches-IsLast :
      (n i : ℕ) (s : Kmem A) → n + i ≡ 7 → IsMade i s → IsLast (create_caches (suc n) i names s)
  unfolding create_caches round
  create_caches-IsLast zero i s seven made =
      rw (create_caches-suc zero i s)
        (rw (at_end i seven) (round-IsLast s (subst (λ x. IsMade x s) (at_end i seven) made)))
  create_caches-IsLast (suc n) i s seven made = rw (create_caches-suc (suc n) i s) (
      create_caches-IsLast n (suc i) (round i s) (omega arith)
        (round-IsMade i s (omega arith) made))

  kmem_init-IsLast : (s : Kmem A) → s.num_caches ≡ 0 → IsLast (kmem_init names s)
  unfolding kmem_init IsMade IsLast
  kmem_init-IsLast s fresh =
      create_caches-IsLast 7 0 s refl (fresh, λ j below. absurd (omega arith))

module _ {A : Type 0} (names : ℕ → ℕ) (s : Kmem A) (fresh : s.num_caches ≡ 0) where
  kmem_init-ready : (kmem_init names s).slab_initialized ≡ true
  unfolding kmem_init
  kmem_init-ready = refl

  -- After `kmem_init` with no cache made before, `kmalloc` of 1 to 2048 bytes is `kmem_cache_alloc` of a cache whose
  -- objects have at least that size, and `kmalloc` of 2049 to 4096 bytes is NULL and changes nothing.
  pub kmalloc-kmem_init :
      (m : PageAllocator A)
      → (size : ℕ) → 0 < size
      → size ≤ 4096
      → let s' = kmem_init names s in
        ((size ≤ 2048)
          × (i : ℕ) × (kmalloc m size s' ≡ kmem_cache_alloc m (some i) s')
          × (size ≤ (s'.all_caches i).obj_size))
        ⊎ ((2048 < size) × (kmalloc m size s' ≡ (0, s')))
  unfolding kmem_cache_alloc IsLast
  kmalloc-kmem_init m size positive small = elim (Bool-cases (leb size 2048)) [
    | inl le ↦
        let (i, e, lt, fits) = index_fits size (leb→le size 2048 le) in
        let (there, obj) = (kmem_init-IsLast names s fresh).1 i lt in
        inl (
          leb→le size 2048 le,
          i,
          kmalloc-index m size i (some i) (kmem_init names s) positive kmem_init-ready e there,
          rw obj fits,
        )
    | inr gt ↦ inr (
      ground arith,
      kmalloc-index m size 7 none (kmem_init names s) positive kmem_init-ready
          (index_large size (ground arith) small) (kmem_init-IsLast names s fresh).0,
    )
  ]
