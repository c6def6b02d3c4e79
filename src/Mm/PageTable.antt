-- ===== src/Mm/PageTable.antt =====
-- The SV39 page tables of arch/riscv64/mm/pgtable.c. Memory is the words at the addresses of the entries; `alloc_page` is
-- the page allocator's, on a state of its own; a mask of low bits is a remainder, and a shift a quotient or a product.
pub mod Giga
mod Tests
use Prim.Native.Nat.{bit_and, bit_or}
use minix_rv.Prelude.{
  ℕ, zero, suc, ◌+◌, ◌-◌, ◌*◌, ◌/◌, ◌%◌, ◌^◌, Bool, true, false, ◌&&◌, not, Option, none, some, ℤ,
  pos, negsuc, ltb, leb, ◌==◌, if◌then◌else◌,
}
use minix_rv.Fs.Base.{update}

abbrev pub page_size : ℕ
page_size = 4096

abbrev pub pmd_size : ℕ
pmd_size = 2 ^ 21

abbrev pub pgdir_size : ℕ
pgdir_size = 2 ^ 30

abbrev pub ptrs_per_table : ℕ
ptrs_per_table = 512

abbrev pub pte_v : ℕ
pte_v = 1

-- `PTE_R | PTE_W | PTE_X`
abbrev pub pte_rwx : ℕ
pte_rwx = 14

-- `PTE_KERNEL`
abbrev pub pte_kernel : ℕ
pte_kernel = 199

-- `PTE_KERNEL_RWX`
abbrev pub pte_kernel_rwx : ℕ
pte_kernel_rwx = 207

abbrev pub u64 : ℕ
u64 = 2 ^ 64

-- The word memory, the pages to be allocated, and the static variables: `kernel_pgd` is an address.
pub record Mmu (A : Type 0) : Type 0 where
  pub mem : ℕ → ℕ
  pub pool : A
  pub kernel_pgd : ℕ
  pub kernel_satp : ℕ

unfoldable pub pgd_index : ℕ → ℕ
pgd_index va = va / pgdir_size % ptrs_per_table

unfoldable pub pmd_index : ℕ → ℕ
pmd_index va = va / pmd_size % ptrs_per_table

unfoldable pub pte_index : ℕ → ℕ
pte_index va = va / page_size % ptrs_per_table

unfoldable pub pte_valid : ℕ → Bool
pte_valid pte = not (bit_and pte pte_v == 0)

unfoldable pub pte_leaf : ℕ → Bool
pte_leaf pte = not (bit_and pte pte_rwx == 0)

unfoldable pub pte_to_phys : ℕ → ℕ
pte_to_phys pte = pte / 1024 * page_size % u64

unfoldable pub phys_to_pte : ℕ → ℕ → ℕ
phys_to_pte phys flags = bit_or (phys / page_size * 1024 % u64) flags

-- The address of entry `i` of a table.
abbrev pub entry : ℕ → ℕ → ℕ
entry table i = table + 8 * i

-- The address aligned to a size.
abbrev pub align : ℕ → ℕ → ℕ
align size a = a / size * size

-- `n` entries from the address on.
unfoldable pub zero_entries : ℕ → ℕ → (ℕ → ℕ) → ℕ → ℕ
zero_entries zero a mem = mem
zero_entries (suc n) a mem = zero_entries n (a + 8) (update mem a 0)

abbrev pub store : {A : Type 0} → Mmu A → ℕ → ℕ → Mmu A
store s a pte = record s { mem = update s.mem a pte }

module _ {A : Type 0} (alloc_page : A → ℕ × A) where
  unfoldable pub pgtable_alloc : Mmu A → ℕ × Mmu A
  unfolding zero_entries
  pgtable_alloc s =
      let (page, pool) = alloc_page s.pool in
      if page == 0
      then (0, record s { pool = pool })
      else (page, record s { mem = zero_entries ptrs_per_table page s.mem; pool = pool })

  -- The entry made to point to a table where it is not valid; `false` where there is none.
  unfoldable pub ensure_table : Bool → ℕ → Mmu A → Bool × Mmu A
  unfolding pgtable_alloc
  ensure_table create a s =
      if pte_valid (s.mem a)
      then (true, s)
      else if not create
      then (false, s)
      else (let (phys, s') = pgtable_alloc s in
          if phys == 0 then (false, s') else (true, store s' a (phys_to_pte phys pte_v)))

  -- From the entry of the middle level on.
  unfoldable pub walk_pmd : ℕ → ℕ → Bool → Mmu A → Option ℕ × Mmu A
  unfolding ensure_table
  walk_pmd table va create s =
      let a = entry table (pmd_index va) in
      let (ok, s') = ensure_table create a s in
      if not ok
      then (none, s')
      else if pte_leaf (s'.mem a)
      then (some a, s')
      else (some (entry (pte_to_phys (s'.mem a)) (pte_index va)), s')

  -- The address of the entry for `va`, `none` for NULL.
  unfoldable pub walk_pgtable : Mmu A → ℕ → ℕ → Bool → Option ℕ × Mmu A
  unfolding ensure_table walk_pmd
  walk_pgtable s pgd va create =
      let a = entry pgd (pgd_index va) in
      let (ok, s') = ensure_table create a s in
      if not ok
      then (none, s')
      else if pte_leaf (s'.mem a)
      then (some a, s')
      else walk_pmd (pte_to_phys (s'.mem a)) va create s'

  unfoldable pub map_page_4k : Mmu A → ℕ → ℕ → ℕ → ℕ → ℤ × Mmu A
  unfolding walk_pgtable
  map_page_4k s pgd va pa flags =
      let (pte, s') = walk_pgtable s pgd (align page_size va) true in
      elim pte [
        | none ↦ (negsuc 0, s')
        | some a ↦ (pos 0, store s' a (phys_to_pte (align page_size pa) (bit_or flags pte_v)))
      ]

  unfoldable pub map_page_2m : Mmu A → ℕ → ℕ → ℕ → ℕ → ℤ × Mmu A
  unfolding ensure_table
  map_page_2m s pgd va pa flags =
      let a = entry pgd (pgd_index (align pmd_size va)) in
      let (ok, s') = ensure_table true a s in
      if not ok then (negsuc 0, s') else (
        pos 0,
        store s' (entry (pte_to_phys (s'.mem a)) (pmd_index (align pmd_size va)))
            (phys_to_pte (align pmd_size pa) (bit_or flags pte_v)),
      )

  unfoldable pub map_page_1g : Mmu A → ℕ → ℕ → ℕ → ℕ → ℤ × Mmu A
  map_page_1g s pgd va pa flags = (
    pos 0,
    store s (entry pgd (pgd_index (align pgdir_size va)))
        (phys_to_pte (align pgdir_size pa) (bit_or flags pte_v)),
  )

  unfoldable pub unmap_page_pte : Mmu A → ℕ → ℕ → Mmu A
  unfolding walk_pgtable
  unmap_page_pte s pgd va =
      let (pte, s') = walk_pgtable s pgd (align page_size va) false in
      elim pte [ none ↦ s' | some a ↦ if pte_valid (s'.mem a) then store s' a 0 else s' ]

  -- The loop of `map_region` over `n` pages at most.
  unfoldable pub map_pages : ℕ → Mmu A → ℕ → ℕ → ℕ → ℕ → ℕ → ℤ × Mmu A
  unfolding map_page_4k
  map_pages zero s pgd va pa end_ flags = (pos 0, s)
  map_pages (suc n) s pgd va pa end_ flags = elim (ltb va end_) [
    | false ↦ (pos 0, s)
    | true ↦
        let (result, s') = map_page_4k s pgd va pa flags in
        elim result [
          | negsuc k ↦ (negsuc 0, s')
          | pos k ↦ map_pages n s' pgd ((va + page_size) % u64) ((pa + page_size) % u64) end_ flags
        ]
  ]

  unfoldable pub map_region : ℕ → Mmu A → ℕ → ℕ → ℕ → ℕ → ℕ → ℤ × Mmu A
  unfolding map_pages
  map_region n s pgd va_start pa_start size flags =
      map_pages n s pgd (align page_size va_start) (align page_size pa_start)
        (align page_size ((va_start + size + page_size - 1) % u64)) flags

  -- The page that `map_region_large` maps at the address, with its size.
  unfoldable pub map_largest : Mmu A → ℕ → ℕ → ℕ → ℕ → ℕ → ℕ × ℤ × Mmu A
  unfolding map_page_1g map_page_2m map_page_4k
  map_largest s pgd va pa remaining flags =
      if (va % pgdir_size == 0) && (pa % pgdir_size == 0) && leb pgdir_size remaining
      then (let (result, s') = map_page_1g s pgd va pa flags in (pgdir_size, result, s'))
      else if (va % pmd_size == 0) && (pa % pmd_size == 0) && leb pmd_size remaining
      then (let (result, s') = map_page_2m s pgd va pa flags in (pmd_size, result, s'))
      else (let (result, s') = map_page_4k s pgd va pa flags in (page_size, result, s'))

  -- The loop of `map_region_large`, over `n` pages at most.
  unfoldable pub map_large : ℕ → Mmu A → ℕ → ℕ → ℕ → ℕ → ℕ → ℤ × Mmu A
  unfolding map_largest
  map_large zero s pgd va pa end_ flags = (pos 0, s)
  map_large (suc n) s pgd va pa end_ flags = elim (ltb va end_) [
    | false ↦ (pos 0, s)
    | true ↦
        let (size, result, s') = map_largest s pgd va pa (end_ - va) flags in
        elim result [
          | negsuc k ↦ (negsuc 0, s')
          | pos k ↦ map_large n s' pgd ((va + size) % u64) ((pa + size) % u64) end_ flags
        ]
  ]

  unfoldable pub map_region_large : ℕ → Mmu A → ℕ → ℕ → ℕ → ℕ → ℕ → ℤ × Mmu A
  unfolding map_large
  map_region_large n s pgd va_start pa_start size flags =
      map_large n s pgd va_start pa_start ((va_start + size) % u64) flags

  unfoldable pub lookup_pa : Mmu A → ℕ → ℕ
  unfolding walk_pgtable
  lookup_pa s va =
      let (pte, s') = walk_pgtable s s.kernel_pgd va false in
      elim pte [
        | none ↦ 0
        | some a ↦
            if pte_valid (s'.mem a) then bit_or (pte_to_phys (s'.mem a)) (va % page_size) else 0
      ]

  unfoldable pub protect_page : Mmu A → ℕ → ℕ → ℤ × Mmu A
  unfolding walk_pgtable
  protect_page s va flags =
      let (pte, s') = walk_pgtable s s.kernel_pgd va false in
      elim pte [
        | none ↦ (negsuc 0, s')
        | some a ↦
            if pte_valid (s'.mem a)
            then (pos 0, store s' a (phys_to_pte (pte_to_phys (s'.mem a)) (bit_or flags pte_v)))
            else (negsuc 0, s')
      ]

  -- `virt_to_phys` is the identity.
  unfoldable pub pgtable_init : Mmu A → ℤ × Mmu A
  unfolding zero_entries map_page_1g
  pgtable_init s =
      let s1 = record s { mem = zero_entries ptrs_per_table s.kernel_pgd s.mem } in
      let s2 = (map_page_1g s1 s1.kernel_pgd 0 0 pte_kernel).1 in
      let s3 = (map_page_1g s2 s2.kernel_pgd 0x80000000 0x80000000 pte_kernel_rwx).1 in
      (pos 0, record s3 { kernel_satp = bit_or (8 * 2 ^ 60) (s3.kernel_pgd / page_size) })
