-- ===== src/Mm/Slab/Alloc.antt =====
-- Objects of the slab caches of arch/riscv64/mm/slab.c taken and given back.
use minix_rv.Prelude.{ℕ, ◌+◌, ◌*◌, ◌%◌, ◌<◌, ◌≡◌, ◌≢◌, refl, false, some, ◌==◌, [], arith}
use minix_rv.Fs.Base.{update}
use minix_rv.Mm.PageTable.{u64, align, page_size}
use minix_rv.Mm.Slab.{
  Kmem, PageAllocator, u32, kmem_cache_alloc, kmem_cache_free, slab_base, take_obj, find_slab,
  relist, set_cache, slab_alloc, add_new, slab_init_objs,
}
use minix_rv.Mm.Slab.Chain.{IsChain, objs_from, slab_init_objs-IsChain, same}

pub nonzero : (a : ℕ) → 0 < a → (a == 0) ≡ false
nonzero a h = ground arith

module _ {A : Type 0} (m : PageAllocator A) where
  -- For an object, not NULL, of a slab of the cache that was full, with a count of objects in use above 0 and below
  -- 2 ^ 32, the `kmem_cache_alloc` behind its `kmem_cache_free` gives the same object, and the slab's free list and
  -- count are as they were.
  pub kmem_cache_alloc-free :
      (c obj : ℕ) (s : Kmem A)
      → let slab = align page_size obj in
        let (obj', s') = kmem_cache_alloc m (some c) (kmem_cache_free m (some c) obj s) in
        obj ≢ 0
        → (s.slabs slab).cache ≡ c
        → (s.slabs slab).inuse ≡ (s.slabs slab).total
        → 0 < (s.slabs slab).inuse
        → (s.slabs slab).inuse < u32
        → (obj' ≡ obj)
          × ((s'.slabs slab).free_list ≡ (s.slabs slab).free_list)
          × ((s'.slabs slab).inuse ≡ (s.slabs slab).inuse)
  unfolding kmem_cache_alloc kmem_cache_free take_obj find_slab relist set_cache
  kmem_cache_alloc-free c obj s nonzero owned full positive small = ground arith

  unused : (page c : ℕ) (s : Kmem A) → ((slab_init_objs page c s).slabs page).inuse ≡ 0
  unfolding slab_init_objs
  unused page c s = rw (same page) refl

  -- The state with a page taken for a slab, and that with the slab ready.
  owned : ℕ → ℕ → A → Kmem A → Kmem A
  owned c page pool s = record s {
    pool = pool;
    slabs = update s.slabs page (record (s.slabs page) { cache = c });
  }

  with_slab : ℕ → ℕ → A → Kmem A → Kmem A
  with_slab c page pool s = slab_init_objs page c (owned c page pool s)

  slab_alloc-new :
      (c page : ℕ) (pool : A) (s : Kmem A)
      → m.alloc_page s.pool ≡ (page, pool)
      → 0 < page
      → let ready = with_slab c page pool s in
        let k = ready.all_caches c in
        slab_alloc m c s
        ≡ (some page, set_cache c (record k { slab_count = (k.slab_count + 1) % u32 }) ready)
  unfolding slab_alloc with_slab owned
  slab_alloc-new c page pool s taken real = rw taken (rw (nonzero page real) refl)

  -- Where a cache has neither partial nor empty slabs, its objects have a size above 0 and end below 2 ^ 64, and
  -- `alloc_page` gives a page that is not 0: the object that `kmem_cache_alloc` returns heads a list of all objects of
  -- the page in the order of their addresses, the slab's free list is what follows the object there, and one object is
  -- counted as used.
  pub kmem_cache_alloc-new :
      (c page : ℕ) (pool : A) (s : Kmem A)
      → let k = s.all_caches c in
        let base = slab_base page k.alignment in
        let (obj, s') = kmem_cache_alloc m (some c) s in
        k.slabs_partial ≡ []
        → k.slabs_empty ≡ []
        → m.alloc_page s.pool ≡ (page, pool)
        → 0 < page
        → 0 < k.obj_size
        → base + k.objs_per_slab * k.obj_size < u64
        → IsChain s'.word obj (objs_from base k.obj_size k.objs_per_slab 0)
          × ((s'.slabs page).free_list ≡ s'.word obj)
          × ((s'.slabs page).inuse ≡ 1)
  unfolding kmem_cache_alloc find_slab take_obj add_new set_cache with_slab owned
  kmem_cache_alloc-new c page pool s no_partial no_empty taken real positive fits = rw no_partial (
      rw no_empty (
        rw (slab_alloc-new c page pool s taken real) (
          rw (same page) (
            slab_init_objs-IsChain page c (owned c page pool s) positive fits,
            refl,
            rw (unused page c (owned c page pool s)) refl,
          ))))
