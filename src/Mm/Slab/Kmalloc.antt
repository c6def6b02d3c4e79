-- ===== src/Mm/Slab/Kmalloc.antt =====
-- `kmalloc`, `kfree` and `kmem_init` of arch/riscv64/mm/slab.c.
use minix_rv.Prelude.{
  ℕ, zero, suc, ◌+◌, ◌-◌, ◌*◌, ◌/◌, ◌%◌, ◌^◌, true, not, Option, none, some, ltb, leb, ◌==◌,
  if◌then◌else◌,
}
use minix_rv.Fs.Base.{update}
use minix_rv.Mm.PageTable.{page_size, u64, align}
use minix_rv.Mm.Slab.{
  Kmem, PageAllocator, max_slab_caches, kmem_cache_alloc, kmem_cache_free, kmem_cache_create,
}

unfoldable pub kmalloc_index : ℕ → Option ℕ
kmalloc_index size =
    if leb size 32
    then some 0
    else if leb size 64
    then some 1
    else if leb size 128
    then some 2
    else if leb size 256
    then some 3
    else if leb size 512
    then some 4
    else if leb size 1024
    then some 5
    else if leb size 2048
    then some 6
    else if leb size 4096
    then some 7
    else none

module _ {A : Type 0} where
  abbrev pub whole_page : PageAllocator A → Kmem A → ℕ × Kmem A
  whole_page m s = let (page, pool) = m.alloc_page s.pool in (page, record s { pool = pool })

  unfoldable pub kmalloc : PageAllocator A → ℕ → Kmem A → ℕ × Kmem A
  kmalloc m size s =
      let whole = whole_page m s in
      if size == 0
      then (0, s)
      else if not s.slab_initialized
      then if leb size page_size then whole else (0, s)
      else elim (kmalloc_index size) [
        | none ↦ if ((size + page_size - 1) % u64) / page_size == 1 then whole else (0, s)
        | some index ↦ kmem_cache_alloc m (s.kmalloc_caches index) s
      ]

  unfoldable pub kfree : PageAllocator A → ℕ → Kmem A → Kmem A
  kfree m ptr s =
      let page = align page_size ptr in
      let c = (s.slabs page).cache in
      let whole = record s { pool = m.free_page s.pool page } in
      if ptr == 0
      then s
      else if not s.slab_initialized
      then whole
      else if ltb c max_slab_caches
      then kmem_cache_free m (some c) ptr s
      else whole

  -- The loop of `kmem_init` over the `n` sizes from index `i` on, each twice the one before.
  unfoldable pub create_caches : ℕ → ℕ → (ℕ → ℕ) → Kmem A → Kmem A
  create_caches zero i names s = s
  create_caches (suc n) i names s =
      let (c, created) = kmem_cache_create (names i) (32 * 2 ^ i) s in
      create_caches n (suc i) names
        (record created { kmalloc_caches = update created.kmalloc_caches i c })

  unfoldable pub kmem_init : (ℕ → ℕ) → Kmem A → Kmem A
  kmem_init names s = record (create_caches 8 0 names s) { slab_initialized = true }
