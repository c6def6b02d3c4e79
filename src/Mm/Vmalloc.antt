-- ===== src/Mm/Vmalloc.antt =====
-- The areas of kernel addresses of arch/riscv64/mm/vmalloc.c, over the page tables of Mm.PageTable. An area is its
-- index in `vm_areas`, and `vmlist` the list of the areas that the `next` pointers run through.
pub mod Gaps
pub mod Reserve
pub mod Alloc
pub mod Leak
mod Tests
use Prim.Native.Nat.{bit_and, bit_or}
use minix_rv.Prelude.{
  ℕ, zero, suc, ◌+◌, ◌-◌, ◌*◌, ◌/◌, ◌%◌, ◌^◌, Bool, true, false, ◌||◌, not, Option, none, some, pos,
  negsuc, List, [], ◌∷◌, remove, ltb, leb, ◌==◌, if◌then◌else◌,
}
use minix_rv.Fs.Base.{update}
use minix_rv.Mm.Buddy.{Buddy, alloc_page, free_page}
use minix_rv.Mm.PageTable.{Mmu, page_size, u64, align, map_page_4k, unmap_page_pte}

abbrev pub vmalloc_start : ℕ
vmalloc_start = 0x84000000

abbrev pub vmalloc_end : ℕ
vmalloc_end = 0x88000000

abbrev pub max_vmalloc_areas : ℕ
max_vmalloc_areas = 64

abbrev pub vm_alloc : ℕ
vm_alloc = 1

abbrev pub vm_map : ℕ
vm_map = 2

abbrev pub vm_ioremap : ℕ
vm_ioremap = 4

abbrev pub pte_kernel_rw : ℕ
pte_kernel_rw = 199

pub record VmStruct : Type 0 where
  pub addr : ℕ
  pub size : ℕ
  pub flags : ℕ
  pub nr_pages : ℕ
  pub pages : ℕ
  pub in_use : Bool

pub record Vmalloc (A : Type 0) : Type 0 where
  pub vm_areas : ℕ → VmStruct
  pub vmlist : List ℕ
  pub vmalloc_pos : ℕ
  pub vmalloc_initialized : Bool
  pub mmu : Mmu A

-- The page allocator, and what a read and a write of a word at a virtual address do.
pub record Machine (A : Type 0) : Type 0 where
  pub alloc_page : A → ℕ × A
  pub free_page : A → ℕ → A
  pub peek : ℕ → Mmu A → ℕ
  pub poke : ℕ → ℕ → Mmu A → Mmu A

-- The page allocator of the kernel.
abbrev pub on_buddy : (ℕ → Mmu Buddy → ℕ) → (ℕ → ℕ → Mmu Buddy → Mmu Buddy) → Machine Buddy
on_buddy peek poke = record {
  alloc_page = alloc_page;
  free_page = free_page;
  peek = peek;
  poke = poke;
}

-- Entry `i` of the `n` that are left and those behind it.
unfoldable pub init_areas : ℕ → ℕ → (ℕ → VmStruct) → ℕ → VmStruct
init_areas zero i areas = areas
init_areas (suc n) i areas =
    init_areas n (suc i)
      (update areas i (record (areas i) { in_use = false; addr = 0; size = 0; pages = 0 }))

-- The first area from `i` on that is not in use.
unfoldable pub free_area : ℕ → ℕ → (ℕ → VmStruct) → Option ℕ
free_area zero i areas = none
free_area (suc n) i areas =
    let rest = free_area n (suc i) areas in if (areas i).in_use then rest else some i

unfoldable pub gap_from : (ℕ → VmStruct) → List ℕ → ℕ → ℕ → ℕ
gap_from areas [] addr size = if leb ((addr + size) % u64) vmalloc_end then addr else 0
gap_from areas (v ∷ l) addr size =
    let rest = gap_from areas l (((areas v).addr + (areas v).size) % u64) size in
    if leb ((addr + size) % u64) (areas v).addr then addr else rest

-- The size with the guard page, rounded up to pages.
unfoldable pub guarded : ℕ → ℕ
guarded size = align page_size (((size + page_size) % u64 + page_size - 1) % u64)

unfoldable pub insert_area : (ℕ → VmStruct) → ℕ → List ℕ → List ℕ
insert_area areas v [] = v ∷ []
insert_area areas v (w ∷ l) =
    if ltb (areas w).addr (areas v).addr then w ∷ insert_area areas v l else v ∷ w ∷ l

unfoldable pub find_area : (ℕ → VmStruct) → List ℕ → ℕ → Option ℕ
find_area areas [] addr = none
find_area areas (v ∷ l) addr = if (areas v).addr == addr then some v else find_area areas l addr

-- The address of page `i` from an address on.
abbrev pub page_at : ℕ → ℕ → ℕ
page_at addr i = (addr + i * page_size) % u64

module _ {A : Type 0} where
  unfoldable pub vmalloc_init : Vmalloc A → Vmalloc A
  unfolding init_areas
  vmalloc_init s = record s {
    vm_areas = init_areas max_vmalloc_areas 0 s.vm_areas;
    vmlist = [];
    vmalloc_pos = vmalloc_start;
    vmalloc_initialized = true;
  }

  unfoldable pub alloc_vm_struct : Vmalloc A → Option ℕ × Vmalloc A
  unfolding free_area
  alloc_vm_struct s = elim (free_area max_vmalloc_areas 0 s.vm_areas) [
    | none ↦ (none, s)
    | some v ↦ (
      some v,
      record s { vm_areas = update s.vm_areas v (record (s.vm_areas v) { in_use = true }) },
    )
  ]

  unfoldable pub free_vm_struct : ℕ → Vmalloc A → Vmalloc A
  free_vm_struct v s = record s {
    vm_areas =
        update s.vm_areas v
          (record { addr = 0; size = 0; flags = 0; nr_pages = 0; pages = 0; in_use = false });
  }

  unfoldable pub find_vmalloc_area : ℕ → Vmalloc A → ℕ
  unfolding gap_from guarded
  find_vmalloc_area size s = gap_from s.vm_areas s.vmlist vmalloc_start (guarded size)

  unfoldable pub insert_vm_struct : ℕ → Vmalloc A → Vmalloc A
  unfolding insert_area
  insert_vm_struct v s = record s { vmlist = insert_area s.vm_areas v s.vmlist }

  unfoldable pub remove_vm_struct : ℕ → Vmalloc A → Vmalloc A
  unfolding remove
  remove_vm_struct v s = record s { vmlist = remove v s.vmlist }

  unfoldable pub find_vm_area : ℕ → Vmalloc A → Option ℕ
  unfolding find_area
  find_vm_area addr s = find_area s.vm_areas s.vmlist addr

  unfoldable pub init_vm_struct : ℕ → ℕ → ℕ → ℕ → ℕ → Vmalloc A → Vmalloc A
  init_vm_struct v addr nr_pages flags pages s = record s {
    vm_areas = update s.vm_areas v (record (s.vm_areas v) {
      addr = addr;
      size = (nr_pages + 1) * page_size % u64;
      flags = flags;
      nr_pages = nr_pages;
      pages = pages;
    });
  }

  -- The address for the area, which is freed where there is none.
  unfoldable pub place : ℕ → ℕ → ℕ → ℕ → ℕ → Vmalloc A → Option (ℕ × ℕ) × Vmalloc A
  place v size nr_pages flags pages s =
      let addr = find_vmalloc_area size s in
      if addr == 0
      then (none, free_vm_struct v s)
      else (some (v, addr), init_vm_struct v addr nr_pages flags pages s)

  unfoldable pub place_new : ℕ → ℕ → ℕ → ℕ → Option ℕ × Vmalloc A → Option (ℕ × ℕ) × Vmalloc A
  place_new size nr_pages flags pages (none, s) = (none, s)
  place_new size nr_pages flags pages (some v, s) = place v size nr_pages flags pages s

  -- An area with an address for `size` bytes, with its fields set; `none` where one is missing.
  unfoldable pub reserve_area : ℕ → ℕ → ℕ → ℕ → Vmalloc A → Option (ℕ × ℕ) × Vmalloc A
  unfolding place_new
  reserve_area size nr_pages flags pages s = place_new size nr_pages flags pages (alloc_vm_struct s)

  -- What stands behind the loop that maps the pages.
  unfoldable pub finish : ℕ → ℕ → Bool × Mmu A → Vmalloc A → ℕ × Vmalloc A
  finish v result (true, mmu) s = (result, insert_vm_struct v (record s { mmu = mmu }))
  finish v result (false, mmu) s = (0, free_vm_struct v (record s { mmu = mmu }))

  -- The pages of a new area mapped by a loop; the result is `offset` bytes behind its address.
  unfoldable pub map_area :
      ℕ → (ℕ → Mmu A → Bool × Mmu A) → Option (ℕ × ℕ) × Vmalloc A → ℕ × Vmalloc A
  map_area offset loop (none, s) = (0, s)
  map_area offset loop (some (v, addr), s) = finish v (addr + offset) (loop addr s.mmu) s

module _ {A : Type 0} (m : Machine A) where
  -- The pages from `i` on, as many as are left.
  unfoldable pub unmap_pages : ℕ → ℕ → ℕ → ℕ → Mmu A → Mmu A
  unfolding unmap_page_pte
  unmap_pages zero i pgd addr s = s
  unmap_pages (suc n) i pgd addr s =
      unmap_pages n (suc i) pgd addr (unmap_page_pte m.alloc_page s pgd (page_at addr i))

  unfoldable pub zero_words : ℕ → ℕ → Mmu A → Mmu A
  zero_words zero a s = s
  zero_words (suc n) a s = zero_words n ((a + 8) % u64) (m.poke a 0 s)

  -- Page `i` of `__vmalloc`, where the result is negative if it could not be mapped.
  unfoldable pub fill_page : ℕ → ℕ → ℕ → Mmu A → Bool × Mmu A
  unfolding map_page_4k zero_words
  fill_page i pgd addr s =
      let (page, pool) = m.alloc_page s.pool in
      let s1 = record s { pool = pool } in
      if page == 0
      then (false, s1)
      else (let (result, s2) =
            map_page_4k m.alloc_page s1 pgd (page_at addr i) page pte_kernel_rw in
          elim result [
            | negsuc k ↦ (false, record s2 { pool = m.free_page s2.pool page })
            | pos k ↦ (true, zero_words 512 (page_at addr i) s2)
          ])

  unfoldable pub fill_pages : ℕ → ℕ → ℕ → ℕ → Mmu A → Bool × Mmu A
  unfolding fill_page unmap_pages
  fill_pages zero i pgd addr s = (true, s)
  fill_pages (suc n) i pgd addr s =
      let (ok, s1) = fill_page i pgd addr s in
      elim ok [
        | true ↦ fill_pages n (suc i) pgd addr s1
        | false ↦ (false, unmap_pages i 0 pgd addr s1)
      ]

  -- The loop of `vmap` and `ioremap`, with the physical address of each page.
  unfoldable pub map_frames : (ℕ → Mmu A → ℕ) → ℕ → ℕ → ℕ → ℕ → Mmu A → Bool × Mmu A
  unfolding map_page_4k unmap_pages
  map_frames frame zero i pgd addr s = (true, s)
  map_frames frame (suc n) i pgd addr s =
      let (result, s1) =
        map_page_4k m.alloc_page s pgd (page_at addr i) (frame i s) pte_kernel_rw in
      elim result [
        | pos k ↦ map_frames frame n (suc i) pgd addr s1
        | negsuc k ↦ (false, unmap_pages i 0 pgd addr s1)
      ]

  unfoldable pub core_vmalloc : ℕ → ℕ → Vmalloc A → ℕ × Vmalloc A
  core_vmalloc size flags s =
      let nr_pages = (size + page_size - 1) % u64 / page_size in
      if not s.vmalloc_initialized || size == 0
      then (0, s)
      else map_area 0 (λ addr mmu. fill_pages nr_pages 0 mmu.kernel_pgd addr mmu)
          (reserve_area size nr_pages flags 0 s)

  unfoldable pub vmalloc : ℕ → Vmalloc A → ℕ × Vmalloc A
  vmalloc size s = core_vmalloc size vm_alloc s

  unfoldable pub vzalloc : ℕ → Vmalloc A → ℕ × Vmalloc A
  vzalloc size s = vmalloc size s

  -- The pages of an area unmapped, the area taken out and freed.
  unfoldable pub drop_area : ℕ → Vmalloc A → Vmalloc A
  drop_area v s =
      let vm = s.vm_areas v in
      free_vm_struct v (
        remove_vm_struct v
          (record s { mmu = unmap_pages vm.nr_pages 0 s.mmu.kernel_pgd vm.addr s.mmu }))

  unfoldable pub vfree : ℕ → Vmalloc A → Vmalloc A
  vfree addr s =
      if addr == 0 || not s.vmalloc_initialized
      then s
      else (elim (find_vm_area addr s) [ none ↦ s | some v ↦ drop_area v s ])

  unfoldable pub vmap : ℕ → ℕ → ℕ → Vmalloc A → ℕ × Vmalloc A
  vmap pages nr_pages flags s =
      if not s.vmalloc_initialized || pages == 0 || nr_pages == 0
      then (0, s)
      else map_area 0
          (λ addr mmu.
            map_frames (λ i. m.peek ((pages + 8 * i) % u64)) nr_pages 0 mmu.kernel_pgd addr mmu)
          (reserve_area (nr_pages * page_size % u64) nr_pages (bit_or vm_map flags) pages s)

  unfoldable pub vunmap : ℕ → Vmalloc A → Vmalloc A
  vunmap addr s =
      if addr == 0 || not s.vmalloc_initialized then s else (elim (find_vm_area addr s) [
        | none ↦ s
        | some v ↦ if bit_and (s.vm_areas v).flags vm_map == 0 then s else drop_area v s
      ])

  unfoldable pub ioremap : ℕ → ℕ → Vmalloc A → ℕ × Vmalloc A
  ioremap phys_addr size s =
      let offset = phys_addr % page_size in
      let phys = align page_size phys_addr in
      let nr_pages = (size + offset + page_size - 1) % u64 / page_size in
      if not s.vmalloc_initialized || size == 0
      then (0, s)
      else map_area offset
          (λ addr mmu. map_frames (λ i mmu'. page_at phys i) nr_pages 0 mmu.kernel_pgd addr mmu)
          (reserve_area (nr_pages * page_size % u64) nr_pages vm_ioremap 0 s)

  unfoldable pub iounmap : ℕ → Vmalloc A → Vmalloc A
  iounmap addr s =
      if addr == 0 || not s.vmalloc_initialized
      then s
      else (elim (find_vm_area (align page_size addr) s) [
        | none ↦ s
        | some v ↦ if bit_and (s.vm_areas v).flags vm_ioremap == 0 then s else drop_area v s
      ])
