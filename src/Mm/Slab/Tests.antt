-- ===== src/Mm/Slab/Tests.antt =====
-- Caches of one size and a page of objects, for arch/riscv64/mm/slab.c.
use minix_rv.Prelude.{
  remove, ℕ, suc, ◌*◌, ◌≤◌, ◌<◌, ◌≡◌, ◌⊎◌, refl, false, some, none, [], ◌∷◌, ◌==◌, if◌then◌else◌,
  arith,
}
use minix_rv.Mm.PageTable.{page_size}
use minix_rv.Mm.Slab.{
  Kmem, PageAllocator, SlabCache, kmem_cache_alloc, kmem_cache_free, kmem_cache_create, slab_base,
  link_objs, take_obj, find_slab, add_new, slab_alloc, set_cache, set_place, slab_init_objs, relist,
}
use minix_rv.Mm.Slab.Kmalloc.{kmem_init, kmalloc}
use minix_rv.Mm.Slab.Verify.{
  kmalloc_verify, verify_from, cache_errors, errors_partial, errors_full, errors_empty,
}
use minix_rv.Mm.Slab.Chain.{IsChain, objs_from}
use minix_rv.Mm.Slab.Alloc.{kmem_cache_alloc-new, kmem_cache_alloc-free}
use minix_rv.Mm.Slab.Sizes.{kmalloc-kmem_init}

-- Pages are taken one after the other.
abbrev pages : PageAllocator ℕ
pages = record { alloc_page = λ n. (n * page_size, suc n); free_page = λ n page. n }

abbrev nothing : SlabCache
nothing = record {
  name = 0;
  obj_size = 0;
  alignment = 0;
  objs_per_slab = 0;
  slab_count = 0;
  slabs_partial = [];
  slabs_full = [];
  slabs_empty = [];
  total_allocs = 0;
  total_frees = 0;
}

abbrev before : Kmem ℕ
before = record {
  kmalloc_caches = λ i. none;
  all_caches = λ c. nothing;
  num_caches = 0;
  slab_initialized = false;
  slabs = λ page. record { cache = 99; free_list = 0; inuse = 0; total = 0 };
  word = λ a. 0;
  pool = 0x80400;
}

-- A cache of objects of 1024 bytes: three in a page.
abbrev created : Kmem ℕ
created = (kmem_cache_create 0 1024 before).1

abbrev third : Kmem ℕ
third =
    (kmem_cache_alloc pages (some 0)
      (kmem_cache_alloc pages (some 0) (kmem_cache_alloc pages (some 0) created).1).1).1

-- The third object fills the slab.
filled : (third.all_caches 0).slabs_full ≡ 0x80400000 ∷ []
unfolding kmem_cache_create kmem_cache_alloc take_obj find_slab add_new slab_alloc set_cache
    slab_init_objs link_objs slab_base set_place
filled = refl

-- `kmem_cache_create` makes no cache of objects of 4096 bytes.
too_large : (kmem_cache_create 0 4096 before).0 ≡ none
unfolding kmem_cache_create
too_large = refl

abbrev one_filled : Kmem ℕ
one_filled = record before {
  all_caches = λ c. record nothing {
    obj_size = 2048;
    alignment = 8;
    objs_per_slab = 1;
    slab_count = 1;
    slabs_full = 0x80400000 ∷ [];
  };
  slabs = λ page. record { cache = 0; free_list = 0; inuse = 1; total = 1 };
}

-- The slab of one object is in the list of partial slabs, with none in use.
stays_partial :
    let s' = kmem_cache_free pages (some 0) 0x80400028 one_filled in
    ((s'.all_caches 0).slabs_partial ≡ 0x80400000 ∷ []) × ((s'.slabs 0x80400000).inuse ≡ 0)
unfolding kmem_cache_free relist set_cache
stays_partial = (refl, refl)

-- `kmalloc_verify` counts that slab as an error.
verified :
    kmalloc_verify (record (kmem_cache_free pages (some 0) 0x80400028 one_filled) {
      kmalloc_caches = λ i. if i == 6 then some 0 else none;
    })
    ≡ 1
unfolding kmem_cache_free relist set_cache kmalloc_verify verify_from cache_errors errors_partial
    errors_full errors_empty remove
verified = refl

kmem_cache_alloc-free_example :
    let (obj', s') =
      kmem_cache_alloc pages (some 0) (kmem_cache_free pages (some 0) 0x80400028 one_filled) in
    (obj' ≡ 0x80400028) × ((s'.slabs 0x80400000).free_list ≡ 0) × ((s'.slabs 0x80400000).inuse ≡ 1)
kmem_cache_alloc-free_example =
    kmem_cache_alloc-free pages 0 0x80400028 one_filled (omega arith) refl refl (omega arith)
      (omega arith)

abbrev sized : Kmem ℕ
sized = record before {
  all_caches = λ c. record nothing { obj_size = 1024; alignment = 8; objs_per_slab = 3 };
}

kmem_cache_alloc-new_example :
    let (obj, s') = kmem_cache_alloc pages (some 0) sized in
    IsChain s'.word obj (objs_from 0x80400028 1024 3 0)
    × ((s'.slabs 0x80400000).free_list ≡ s'.word obj)
    × ((s'.slabs 0x80400000).inuse ≡ 1)
unfolding slab_base
kmem_cache_alloc-new_example =
    kmem_cache_alloc-new pages 0 0x80400000 0x80401 sized refl refl refl (omega arith) (omega arith)
      (omega arith)

kmalloc-kmem_init_example :
    let s' = kmem_init (λ i. i) before in
    ((3000 ≤ 2048)
      × (i : ℕ) × (kmalloc pages 3000 s' ≡ kmem_cache_alloc pages (some i) s')
      × (3000 ≤ (s'.all_caches i).obj_size))
    ⊎ ((2048 < 3000) × (kmalloc pages 3000 s' ≡ (0, s')))
kmalloc-kmem_init_example =
    kmalloc-kmem_init (λ i. i) before refl pages 3000 (omega arith) (omega arith)
