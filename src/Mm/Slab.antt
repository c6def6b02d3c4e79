-- ===== src/Mm/Slab.antt =====
-- The slab allocator of arch/riscv64/mm/slab.c. A cache is its index in `all_caches`, and an index from
-- `max_slab_caches` on a pointer to anything else. A slab is the address of its page, and a cache's three lists are
-- the slabs that their `next` pointers run through. The headers of the slabs stand apart from the words of the
-- objects, which start behind them. The page allocator is a parameter, and messages on the console are left out.
pub mod Chain
pub mod Alloc
pub mod Kmalloc
pub mod Verify
pub mod Sizes
mod Tests
use minix_rv.Prelude.{
  ℕ, zero, suc, ◌+◌, ◌-◌, ◌*◌, ◌/◌, ◌%◌, ◌^◌, Bool, true, false, ◌||◌, not, Option, none, some,
  List, [], ◌∷◌, remove, ltb, leb, ◌==◌, if◌then◌else◌,
}
use minix_rv.Fs.Base.{update}
use minix_rv.Mm.PageTable.{page_size, u64, align}

abbrev pub max_slab_caches : ℕ
max_slab_caches = 16

abbrev pub min_obj_size : ℕ
min_obj_size = 8

-- The bytes of a slab's header.
abbrev pub slab_header : ℕ
slab_header = 40

abbrev pub u32 : ℕ
u32 = 2 ^ 32

pub record Slab : Type 0 where
  pub cache : ℕ
  pub free_list : ℕ
  pub inuse : ℕ
  pub total : ℕ

pub record SlabCache : Type 0 where
  pub name : ℕ
  pub obj_size : ℕ
  pub alignment : ℕ
  pub objs_per_slab : ℕ
  pub slab_count : ℕ
  pub slabs_partial : List ℕ
  pub slabs_full : List ℕ
  pub slabs_empty : List ℕ
  pub total_allocs : ℕ
  pub total_frees : ℕ

pub record Kmem (A : Type 0) : Type 0 where
  pub kmalloc_caches : ℕ → Option ℕ
  pub all_caches : ℕ → SlabCache
  pub num_caches : ℕ
  pub slab_initialized : Bool
  pub slabs : ℕ → Slab
  pub word : ℕ → ℕ
  pub pool : A

-- What a pointer to a pointer of the free list points to.
pub data Place : Type 0 where
  head : ℕ → Place
  cell : ℕ → Place

pub record PageAllocator (A : Type 0) : Type 0 where
  pub alloc_page : A → ℕ × A
  pub free_page : A → ℕ → A

-- The address of object `i` from a base on.
abbrev pub obj_at : ℕ → ℕ → ℕ → ℕ
obj_at base size i = (base + i * size) % u64

-- The first object of a slab.
unfoldable pub slab_base : ℕ → ℕ → ℕ
slab_base slab al = align al (((slab + slab_header) % u64 + al - 1) % u64)

module _ {A : Type 0} where
  unfoldable pub set_place : Place → ℕ → Kmem A → Kmem A
  set_place (head slab) x s = record s {
    slabs = update s.slabs slab (record (s.slabs slab) { free_list = x });
  }
  set_place (cell a) x s = record s { word = update s.word a x }

  -- The loop of `slab_init_objs` over the `n` objects from `i` on.
  unfoldable pub link_objs : ℕ → ℕ → ℕ → ℕ → Place → Kmem A → Kmem A
  link_objs base size zero i prev_ptr s = set_place prev_ptr 0 s
  link_objs base size (suc n) i prev_ptr s =
      link_objs base size n (suc i) (cell (obj_at base size i))
        (set_place prev_ptr (obj_at base size i) s)

  unfoldable pub slab_init_objs : ℕ → ℕ → Kmem A → Kmem A
  slab_init_objs slab c s =
      let k = s.all_caches c in
      let linked =
        link_objs (slab_base slab k.alignment) k.obj_size k.objs_per_slab 0 (head slab) s in
      record linked {
        slabs =
            update linked.slabs slab
              (record (linked.slabs slab) { inuse = 0; total = k.objs_per_slab });
      }

  unfoldable pub set_cache : ℕ → SlabCache → Kmem A → Kmem A
  set_cache c k s = record s { all_caches = update s.all_caches c k }

  unfoldable pub slab_alloc : PageAllocator A → ℕ → Kmem A → Option ℕ × Kmem A
  slab_alloc m c s =
      let (page, pool) = m.alloc_page s.pool in
      let owned = record s {
        pool = pool;
        slabs = update s.slabs page (record (s.slabs page) { cache = c });
      } in
      let ready = slab_init_objs page c owned in
      let k = ready.all_caches c in
      if page == 0
      then (none, record s { pool = pool })
      else (some page, set_cache c (record k { slab_count = (k.slab_count + 1) % u32 }) ready)

  unfoldable pub slab_free : PageAllocator A → ℕ → Kmem A → Kmem A
  slab_free m slab s =
      let c = (s.slabs slab).cache in
      let k = s.all_caches c in
      let counted = set_cache c (record k { slab_count = (k.slab_count + u32 - 1) % u32 }) s in
      record counted { pool = m.free_page counted.pool slab }

  unfoldable pub kmem_cache_create : ℕ → ℕ → Kmem A → Option ℕ × Kmem A
  kmem_cache_create name size s =
      let wanted = if ltb size min_obj_size then min_obj_size else size in
      let obj_size = align 8 ((wanted + 7) % u64) in
      let objs = align 8 (page_size - slab_header) / obj_size in
      let k = s.all_caches s.num_caches in
      let sized = record k {
        name = name;
        obj_size = obj_size;
        alignment = 8;
        objs_per_slab = objs;
      } in
      let emptied = record sized {
        slab_count = 0;
        slabs_partial = [];
        slabs_full = [];
        slabs_empty = [];
        total_allocs = 0;
        total_frees = 0;
      } in
      if leb max_slab_caches s.num_caches
      then (none, s)
      else if objs == 0
      then (none, set_cache s.num_caches sized s)
      else (
        some s.num_caches,
        record (set_cache s.num_caches emptied s) { num_caches = suc s.num_caches },
      )

  unfoldable pub free_slabs : PageAllocator A → List ℕ → Kmem A → Kmem A
  free_slabs m [] s = s
  free_slabs m (slab ∷ l) s = free_slabs m l (slab_free m slab s)

  unfoldable pub kmem_cache_destroy : PageAllocator A → ℕ → Kmem A → Kmem A
  kmem_cache_destroy m c s =
      let k = s.all_caches c in
      let freed =
        free_slabs m k.slabs_empty (free_slabs m k.slabs_full (free_slabs m k.slabs_partial s)) in
      set_cache c
        (record (freed.all_caches c) { slabs_partial = []; slabs_full = []; slabs_empty = [] })
        freed

  -- The new slab, if there is one, into the list of partial slabs.
  unfoldable pub add_new : ℕ → Option ℕ × Kmem A → Option ℕ × Kmem A
  add_new c (none, s) = (none, s)
  add_new c (some slab, s) =
      let k = s.all_caches c in
      (some slab, set_cache c (record k { slabs_partial = slab ∷ k.slabs_partial }) s)

  -- A slab with a free object, and `none` where no page is left.
  unfoldable pub find_slab : PageAllocator A → ℕ → List ℕ → List ℕ → Kmem A → Option ℕ × Kmem A
  find_slab m c (slab ∷ partial) empty s = (some slab, s)
  find_slab m c [] (slab ∷ empty) s =
      let k = s.all_caches c in
      (
        some slab,
        set_cache c
            (record k {
              slabs_empty = remove slab k.slabs_empty;
              slabs_partial = slab ∷ k.slabs_partial;
            })
            s,
      )
  find_slab m c [] [] s = add_new c (slab_alloc m c s)

  unfoldable pub take_obj : ℕ → Option ℕ × Kmem A → ℕ × Kmem A
  take_obj c (none, s) = (0, s)
  take_obj c (some slab, s) =
      let h = s.slabs slab in
      let used = record h { free_list = s.word h.free_list; inuse = (h.inuse + 1) % u32 } in
      let k = s.all_caches c in
      let moved =
        if used.inuse == used.total
        then record k {
          slabs_partial = remove slab k.slabs_partial;
          slabs_full = slab ∷ k.slabs_full;
        }
        else k in
      (
        h.free_list,
        set_cache c (record moved { total_allocs = (k.total_allocs + 1) % u64 })
            (record s { slabs = update s.slabs slab used }),
      )

  unfoldable pub kmem_cache_alloc : PageAllocator A → Option ℕ → Kmem A → ℕ × Kmem A
  kmem_cache_alloc m none s = (0, s)
  kmem_cache_alloc m (some c) s =
      let k = s.all_caches c in take_obj c (find_slab m c k.slabs_partial k.slabs_empty s)

  -- The lists of cache `c` once an object of the slab is free again.
  unfoldable pub relist : PageAllocator A → ℕ → ℕ → Bool → Kmem A → Kmem A
  relist m c slab was_full s =
      let k = s.all_caches c in
      let taken = record k { slabs_partial = remove slab k.slabs_partial } in
      if was_full
      then set_cache c
          (record k {
            slabs_full = remove slab k.slabs_full;
            slabs_partial = slab ∷ k.slabs_partial;
          })
          s
      else if (s.slabs slab).inuse == 0
      then elim k.slabs_empty [
        | [] ↦ set_cache c (record taken { slabs_empty = slab ∷ [] }) s
        | _ ∷ _ ↦ slab_free m slab (set_cache c taken s)
      ]
      else s

  unfoldable pub kmem_cache_free : PageAllocator A → Option ℕ → ℕ → Kmem A → Kmem A
  kmem_cache_free m none obj s = s
  kmem_cache_free m (some c) obj s =
      let slab = align page_size obj in
      let h = s.slabs slab in
      let given = record s {
        word = update s.word obj h.free_list;
        slabs =
            update s.slabs slab (record h { free_list = obj; inuse = (h.inuse + u32 - 1) % u32 });
      } in
      let listed = relist m c slab (h.inuse == h.total) given in
      let k = listed.all_caches c in
      if obj == 0 || not (h.cache == c)
      then s
      else set_cache c (record k { total_frees = (k.total_frees + 1) % u64 }) listed
