-- ===== src/Mm/Buddy/Init.antt =====
-- `page_init` of arch/riscv64/mm/page_alloc.c: the free lists of the machine's memory at the start.
pub mod Filled
pub mod Loop
pub mod Start
use Prim.Native.Nat.{bit_and, bit_or}
use minix_rv.Prelude.{
  ℕ, zero, suc, ◌+◌, ◌-◌, ◌*◌, ◌/◌, ◌%◌, ◌^◌, Bool, true, false, ◌&&◌, Option, none, some, ℤ, pos,
  negsuc, ltb, leb, ◌==◌, if◌then◌else◌,
}
use minix_rv.Mm.Buddy.{
  Buddy, Page, FreeArea, page_size, max_order, pg_free, pg_head, pg_reserved, u64_mod, phys_to_pfn,
  set_page, set_area, list_add,
}

abbrev pub phys_memory_base : ℕ
phys_memory_base = 0x80000000

abbrev pub phys_memory_size : ℕ
phys_memory_size = 128 * 1024 * 1024

abbrev pub kernel_reserved : ℕ
kernel_reserved = 4 * 1024 * 1024

-- `sizeof(struct page)`
abbrev pub sizeof_page : ℕ
sizeof_page = 40

-- `n` pages from `i` on.
unfoldable pub clear_pages : ℕ → ℕ → Buddy → Buddy
clear_pages zero i s = s
clear_pages (suc n) i s =
    clear_pages n (suc i) (
      set_page s i
        (record { flags = 0; order = negsuc 0; next = none; prev = none; ref_count = 0 }))

-- `n` orders from `o` on.
unfoldable pub clear_areas : ℕ → ℕ → Buddy → Buddy
clear_areas zero o s = s
clear_areas (suc n) o s =
    clear_areas n (suc o) (set_area s o (record { free_list = none; nr_free = 0 }))

-- `n` pages from `i` on.
unfoldable pub reserve_pages : ℕ → ℕ → Buddy → Buddy
reserve_pages zero i s = s
reserve_pages (suc n) i s =
    reserve_pages n (suc i) (set_page s i (record (s.mem_map i) { flags = pg_reserved }))

-- Whether a block of the order may begin at the frame, before `end_pfn`.
unfoldable pub block_fits : ℕ → ℕ → ℕ → Bool
block_fits end_pfn pfn order =
    (bit_and ((pfn + 2 ^ order - 1) % u64_mod) (u64_mod - 2 ^ order) == pfn)
    && leb (pfn + 2 ^ order) end_pfn

-- The largest order below `n` that fits.
unfoldable pub largest_order : ℕ → ℕ → ℕ → Option ℕ
largest_order end_pfn pfn zero = none
largest_order end_pfn pfn (suc order) =
    if block_fits end_pfn pfn order then some order else largest_order end_pfn pfn order

unfoldable pub add_block : Buddy → ℕ → ℕ → Buddy
add_block s order page =
    let s1 =
      set_page s page
        (record (s.mem_map page) { flags = bit_or pg_free pg_head; order = pos order }) in
    let s2 = list_add s1 order page in
    record s2 { free_page_count = (s2.free_page_count + 2 ^ order) % u64_mod }

-- The loop that adds the pages, in `n` rounds at most.
unfoldable pub add_blocks : ℕ → Buddy → ℕ → Buddy
add_blocks zero s pfn = s
add_blocks (suc n) s pfn = elim (ltb pfn s.end_pfn) [
  | false ↦ s
  | true ↦ elim (largest_order s.end_pfn pfn (max_order + 1)) [
    | none ↦ add_blocks n s (pfn + 1)
    | some order ↦ add_blocks n (add_block s order (pfn - s.start_pfn)) (pfn + 2 ^ order)
  ]
]

-- `if (pfn & 1)`: the frame from which pages are added, the one before it being reserved.
unfoldable pub align_start : Buddy → ℕ → ℕ × Buddy
align_start s pfn = if bit_and pfn 1 == 0 then (pfn, s) else (
  pfn + 1,
  set_page s (pfn - s.start_pfn) (record (s.mem_map (pfn - s.start_pfn)) { flags = pg_reserved }),
)

unfoldable pub page_init : Buddy → Buddy
page_init s =
    let s1 = record s {
      start_pfn = phys_to_pfn (phys_memory_base + kernel_reserved);
      end_pfn = phys_to_pfn (phys_memory_base + phys_memory_size);
      total_pages =
          phys_to_pfn (phys_memory_base + phys_memory_size)
          - phys_to_pfn (phys_memory_base + kernel_reserved);
    } in
    let s2 = record s1 {
      mem_map_pages = (s1.total_pages * sizeof_page + page_size - 1) / page_size;
    } in
    let s3 =
      reserve_pages s2.mem_map_pages 0
        (clear_areas (max_order + 1) 0 (clear_pages s2.total_pages 0 s2)) in
    let (pfn, s4) = align_start s3 (s3.start_pfn + s2.mem_map_pages) in
    add_blocks s2.total_pages (record s4 { free_page_count = 0 }) pfn
