-- ===== src/Mm/PageTable/Tests.antt =====
-- A root table for the page tables of arch/riscv64/mm/pgtable.c.
use Prim.Native.Nat.{bit_or}
use minix_rv.Prelude.{ℕ, suc, ◌%◌, ◌*◌, ◌≡◌, refl, arith}
use minix_rv.Mm.PageTable.{
  Mmu, page_size, pgdir_size, align, pgd_index, pte_kernel_rwx, map_page_1g, lookup_pa,
}
use minix_rv.Mm.PageTable.Giga.{lookup_pa-map_page_1g}

-- Pages are taken one after the other.
abbrev next_page : ℕ → ℕ × ℕ
next_page n = (n * page_size, suc n)

abbrev bare : Mmu ℕ
bare = record { mem = λ a. 0; pool = 0x80400; kernel_pgd = 0x80200000; kernel_satp = 0 }

same_gigabyte : pgd_index 0x80001234 ≡ pgd_index 0x80000000
unfolding pgd_index
same_gigabyte = refl

lookup_pa-map_page_1g_example :
    lookup_pa next_page
      (map_page_1g next_page bare bare.kernel_pgd 0x80000000 0x80000000 pte_kernel_rwx).1
      0x80001234
    ≡ bit_or (align pgdir_size 0x80000000) (0x80001234 % page_size)
lookup_pa-map_page_1g_example =
    lookup_pa-map_page_1g next_page bare 0x80000000 0x80001234 0x80000000 pte_kernel_rwx
      same_gigabyte (omega arith) (omega arith) refl
