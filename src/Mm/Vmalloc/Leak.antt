-- ===== src/Mm/Vmalloc/Leak.antt =====
-- `vfree` of arch/riscv64/mm/vmalloc.c and the pages that it unmaps.
use minix_rv.Prelude.{
  ℕ, zero, suc, ◌≡◌, refl, ◌∙◌, inl, inr, false, not, ◌||◌, ◌==◌, Bool-cases, Option-cases, arith,
}
use minix_rv.Mm.PageTable.{
  Mmu, entry, align, page_size, pgd_index, pmd_index, pte_to_phys, pte_valid, ensure_table,
  walk_pmd, walk_pgtable, unmap_page_pte,
}
use minix_rv.Mm.Vmalloc.{
  Vmalloc, Machine, page_at, unmap_pages, drop_area, remove_vm_struct, free_vm_struct, find_vm_area,
  vfree,
}

module _ {A : Type 0} (alloc_page : A → ℕ × A) where
  -- A walk that creates nothing takes no page.
  ensure_table-still : (a : ℕ) (s : Mmu A) → (ensure_table alloc_page false a s).1 ≡ s
  unfolding ensure_table
  ensure_table-still a s = elim (Bool-cases (pte_valid (s.mem a))) [
    | inl valid ↦ rw valid
    | inr invalid ↦ rw invalid
  ]

  walk_pmd-still : (table va : ℕ) (s : Mmu A) → (walk_pmd alloc_page table va false s).1 ≡ s
  unfolding walk_pmd
  walk_pmd-still table va s = ground (arith, ensure_table-still (entry table (pmd_index va)) s)

  walk_pgtable-still : (s : Mmu A) (pgd va : ℕ) → (walk_pgtable alloc_page s pgd va false).1 ≡ s
  unfolding walk_pgtable
  walk_pgtable-still s pgd va = ground (
    arith,
    ensure_table-still (entry pgd (pgd_index va)) s,
    walk_pmd-still (pte_to_phys (s.mem (entry pgd (pgd_index va)))) va s,
  )

  pub unmap_page_pte-pool :
      (s : Mmu A) (pgd va : ℕ) → (unmap_page_pte alloc_page s pgd va).pool ≡ s.pool
  unfolding unmap_page_pte
  unmap_page_pte-pool s pgd va = ground (arith, walk_pgtable-still s pgd (align page_size va))

module _ {A : Type 0} (m : Machine A) where
  unmap_pages-pool : (n i pgd addr : ℕ) (s : Mmu A) → (unmap_pages m n i pgd addr s).pool ≡ s.pool
  unfolding unmap_pages
  unmap_pages-pool zero i pgd addr s = refl
  unmap_pages-pool (suc n) i pgd addr s =
      unmap_pages-pool n (suc i) pgd addr (unmap_page_pte m.alloc_page s pgd (page_at addr i))
      ∙ unmap_page_pte-pool m.alloc_page s pgd (page_at addr i)

  -- Freeing an address, whatever it is, gives no page back to the page allocator.
  pub vfree-pool : (addr : ℕ) (s : Vmalloc A) → (vfree m addr s).mmu.pool ≡ s.mmu.pool
  unfolding vfree drop_area remove_vm_struct free_vm_struct
  vfree-pool addr s = elim (Bool-cases (addr == 0 || not s.vmalloc_initialized)) [
    | inl bad ↦ rw bad
    | inr good ↦ rw good (elim (Option-cases (find_vm_area addr s)) [
      | inl missing ↦ rw missing
      | inr (v, e) ↦
          rw e
            (unmap_pages-pool (s.vm_areas v).nr_pages 0 s.mmu.kernel_pgd (s.vm_areas v).addr s.mmu)
    ])
  ]
