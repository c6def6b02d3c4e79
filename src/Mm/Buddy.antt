-- ===== src/Mm/Buddy.antt =====
-- The buddy allocator of arch/riscv64/mm/page_alloc.c. A `struct page *` is the index in `mem_map`;
-- the free lists are doubly linked through the pages. Integers are 64 bits wide, `int order` signed.
pub mod Links
pub mod Unlink
pub mod Effect
pub mod Cover
pub mod Invariant
pub mod Areas
pub mod Blocks
pub mod Alloc
pub mod Init
pub mod Pair
pub mod Free
mod Tests
use Prim.Native.Nat.{bit_and, bit_or, bit_xor}
use minix_rv.Prelude.{
  ℕ, zero, suc, ◌+◌, ◌-◌, ◌*◌, ◌/◌, ◌%◌, ◌^◌, Bool, true, false, ◌&&◌, ◌||◌, not, Option, none,
  some, ℤ, pos, negsuc, ltb, leb, ◌==◌, if◌then◌else◌,
}
use minix_rv.Fs.Base.{update}

abbrev pub page_size : ℕ
page_size = 4096

abbrev pub max_order : ℕ
max_order = 11

abbrev pub pg_free : ℕ
pg_free = 1

abbrev pub pg_used : ℕ
pg_used = 2

abbrev pub pg_reserved : ℕ
pg_reserved = 4

abbrev pub pg_head : ℕ
pg_head = 8

abbrev pub u64_mod : ℕ
u64_mod = 2 ^ 64

-- `a - b` of an `unsigned long`
abbrev pub sub64 : ℕ → ℕ → ℕ
sub64 a b = (a + u64_mod - b) % u64_mod

pub record Page : Type 0 where
  pub flags : ℕ
  pub order : ℤ
  pub next : Option ℕ
  pub prev : Option ℕ
  pub ref_count : ℕ

pub record FreeArea : Type 0 where
  pub free_list : Option ℕ
  pub nr_free : ℕ

-- The static variables, and the array of pages that `mem_map` points to.
pub record Buddy : Type 0 where
  pub mem_map : ℕ → Page
  pub mem_map_pages : ℕ
  pub start_pfn : ℕ
  pub end_pfn : ℕ
  pub total_pages : ℕ
  pub free_page_count : ℕ
  pub free_area : ℕ → FreeArea

abbrev pub pfn_to_phys : ℕ → ℕ
pfn_to_phys pfn = pfn * page_size % u64_mod

abbrev pub phys_to_pfn : ℕ → ℕ
phys_to_pfn phys = phys / page_size

unfoldable pub pfn_to_page : Buddy → ℕ → Option ℕ
pfn_to_page s pfn =
    if ltb pfn s.start_pfn || leb s.end_pfn pfn then none else some (pfn - s.start_pfn)

abbrev pub page_to_pfn : Buddy → ℕ → ℕ
page_to_pfn s page = page + s.start_pfn

abbrev pub page_to_phys : Buddy → ℕ → ℕ
page_to_phys s page = pfn_to_phys (page_to_pfn s page)

abbrev pub set_page : Buddy → ℕ → Page → Buddy
set_page s p page = record s { mem_map = update s.mem_map p page }

abbrev pub set_area : Buddy → ℕ → FreeArea → Buddy
set_area s o area = record s { free_area = update s.free_area o area }

-- `if (q) q->prev = p;`
unfoldable pub link_prev : Buddy → Option ℕ → Option ℕ → Buddy
link_prev s none p = s
link_prev s (some q) p = set_page s q (record (s.mem_map q) { prev = p })

unfoldable pub list_add : Buddy → ℕ → ℕ → Buddy
unfolding link_prev
list_add s o page =
    let s' =
      set_page s page (record (s.mem_map page) { prev = none; next = (s.free_area o).free_list }) in
    set_area (link_prev s' (s.free_area o).free_list (some page)) o
      (record { free_list = some page; nr_free = ((s.free_area o).nr_free + 1) % u64_mod })

-- `page->prev->next = page->next`, or the head of the list where the page has no predecessor.
unfoldable pub unlink_prev : Buddy → ℕ → ℕ → Option ℕ → Buddy
unlink_prev s o page none =
    set_area s o (record (s.free_area o) { free_list = (s.mem_map page).next })
unlink_prev s o page (some q) = set_page s q (record (s.mem_map q) { next = (s.mem_map page).next })

unfoldable pub list_del : Buddy → ℕ → ℕ → Buddy
unfolding link_prev unlink_prev
list_del s o page =
    let s1 = unlink_prev s o page (s.mem_map page).prev in
    let s2 = link_prev s1 (s1.mem_map page).next (s1.mem_map page).prev in
    let s3 = set_page s2 page (record (s2.mem_map page) { next = none; prev = none }) in
    set_area s3 o (record (s3.free_area o) { nr_free = sub64 (s3.free_area o).nr_free 1 })

unfoldable pub find_buddy : Buddy → ℕ → ℕ → Option ℕ
unfolding pfn_to_page
find_buddy s page order =
    let buddy_pfn = bit_xor (page_to_pfn s page) (2 ^ order) in
    if ltb buddy_pfn s.start_pfn || leb s.end_pfn buddy_pfn then none else pfn_to_page s buddy_pfn

-- `flags = …; order = …; ref_count = …;`
abbrev pub mark : Buddy → ℕ → ℕ → ℕ → ℕ → Buddy
mark s p flags order refs =
    set_page s p (record (s.mem_map p) { flags = flags; order = pos order; ref_count = refs })

-- The first order from `k` on, for `n` rounds, whose list is not empty, with its first page.
unfoldable pub find_block : (ℕ → FreeArea) → ℕ → ℕ → Option (ℕ × ℕ)
find_block areas zero k = none
find_block areas (suc n) k = elim (areas k).free_list [
  | none ↦ find_block areas n (suc k)
  | some page ↦ some (k, page)
]

-- A block of `order + n` is split `n` times: its upper halves are freed.
unfoldable pub split : Buddy → ℕ → ℕ → ℕ → Buddy
split s page order zero = s
split s page order (suc n) =
    split
      (list_add (mark s (page + 2 ^ (order + n)) (bit_or pg_free pg_head) (order + n) 0) (order + n)
        (page + 2 ^ (order + n)))
      page order n

-- What `alloc_pages` does with a block that it found.
unfoldable pub take_block : Buddy → ℕ → ℕ → ℕ → Buddy
take_block s order k page =
    let s' =
      mark (split (list_del s k page) page order (k - order)) page (bit_or pg_used pg_head) order
        1 in
    record s' { free_page_count = sub64 s'.free_page_count (2 ^ order) }

-- The physical address, or 0.
unfoldable pub alloc_pages : Buddy → ℤ → ℕ × Buddy
unfolding take_block
alloc_pages s (negsuc n) = (0, s)
alloc_pages s (pos order) =
    if ltb max_order order
    then (0, s)
    else elim (find_block s.free_area (max_order + 1 - order) order) [
      | none ↦ (0, s)
      | some (k, page) ↦ let s' = take_block s order k page in (page_to_phys s' page, s')
    ]

-- Whether a free block of the order starts at the page.
unfoldable pub is_free_block : Page → ℕ → Bool
is_free_block b order =
    not (bit_and b.flags pg_free == 0) && (elim b.order [ pos o ↦ o == order | negsuc n ↦ false ])

-- The rounds of the loop of `free_pages` from `order` on, `n` at most, and `list_add` at its end.
unfoldable pub coalesce : ℕ → Buddy → ℕ → ℕ → Buddy
coalesce zero s page order = list_add s order page
coalesce (suc n) s page order = elim (find_buddy s page order) [
  | none ↦ list_add s order page
  | some buddy ↦ elim (is_free_block (s.mem_map buddy) order) [
    | false ↦ list_add s order page
    | true ↦
        let s1 = list_del s order buddy in
        let s2 = set_page s1 buddy (record (s1.mem_map buddy) { flags = 0; order = negsuc 0 }) in
        let low = if ltb buddy page then buddy else page in
        coalesce n (set_page s2 low (record (s2.mem_map low) { order = pos (suc order) })) low
          (suc order)
  ]
]

-- A block whose last reference is gone.
unfoldable pub release : Buddy → ℕ → ℕ → Buddy
release s page order =
    let s' = set_page s page (record (s.mem_map page) { flags = bit_or pg_free pg_head }) in
    coalesce (max_order - order)
      (record s' { free_page_count = (s'.free_page_count + 2 ^ order) % u64_mod }) page order

-- `ref_count--` where it is above 0; the block is released unless it is still in use.
unfoldable pub drop_ref : Buddy → ℕ → ℕ → Buddy
drop_ref s page order =
    if (s.mem_map page).ref_count == 0
    then release s page order
    else (let s' =
          set_page s page
            (record (s.mem_map page) { ref_count = (s.mem_map page).ref_count - 1 }) in
        if (s.mem_map page).ref_count == 1 then release s' page order else s')

unfoldable pub free_pages : Buddy → ℕ → ℤ → Buddy
free_pages s addr (negsuc n) = s
free_pages s addr (pos order) =
    if addr == 0 || ltb max_order order then s else elim (pfn_to_page s (phys_to_pfn addr)) [
      | none ↦ s
      | some page ↦ if bit_and (s.mem_map page).flags pg_head == 0 then s else drop_ref s page order
    ]

unfoldable pub alloc_page : Buddy → ℕ × Buddy
unfolding alloc_pages
alloc_page s = alloc_pages s (pos 0)

unfoldable pub free_page : Buddy → ℕ → Buddy
unfolding free_pages
free_page s addr = free_pages s addr (pos 0)

-- The bytes in all and those free.
unfoldable pub get_mem_info : Buddy → ℕ × ℕ
get_mem_info s = (s.total_pages * page_size % u64_mod, s.free_page_count * page_size % u64_mod)
