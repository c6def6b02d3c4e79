-- ===== src/Mm/Vmalloc/Tests.antt =====
-- One area, and allocations beside it, for arch/riscv64/mm/vmalloc.c.
use minix_rv.Prelude.{
  ℕ, suc, ◌+◌, ◌*◌, ◌%◌, ◌≡◌, refl, true, false, [], ◌∷◌, ◌==◌, if◌then◌else◌, arith,
}
use minix_rv.Fs.Base.{update}
use minix_rv.Mm.PageTable.{
  page_size, pte_valid, pte_leaf, pgd_index, phys_to_pte, pte_to_phys, pmd_index,
}
use minix_rv.Mm.Vmalloc.Leak.{vfree-pool}
use minix_rv.Mm.Vmalloc.{
  Vmalloc, VmStruct, Machine, vmalloc_start, find_vmalloc_area, vmalloc, ioremap, vfree,
  core_vmalloc, reserve_area, alloc_vm_struct, place, map_area, finish, fill_pages, init_vm_struct,
}
use minix_rv.Mm.Vmalloc.Gaps.{Keeps, IsLowest}
use minix_rv.Mm.Vmalloc.Reserve.{IsSpaced, area_size}
use minix_rv.Mm.Vmalloc.Alloc.{
  IsAllocated, pages_of, vmalloc-IsAllocated, ioremap-IsAllocated, find_vmalloc_area-IsLowest,
  vfree-IsSpaced, vfree-vmalloc,
}

-- Pages are taken one after the other, and addresses are physical.
abbrev flat : Machine ℕ
flat = record {
  alloc_page = λ n. (n * page_size, suc n);
  free_page = λ n page. n;
  peek = λ a s. s.mem a;
  poke = λ a x s. record s { mem = update s.mem a x };
}

abbrev unused : VmStruct
unused = record { addr = 0; size = 0; flags = 0; nr_pages = 0; pages = 0; in_use = false }

abbrev one_area : ℕ → VmStruct
one_area i =
    if i == 0
    then record {
      addr = 0x84001000;
      size = 8192;
      flags = 1;
      nr_pages = 1;
      pages = 0;
      in_use = true;
    }
    else unused

abbrev one : Vmalloc ℕ
one = record {
  vm_areas = one_area;
  vmlist = 0 ∷ [];
  vmalloc_pos = vmalloc_start;
  vmalloc_initialized = true;
  mmu = record { mem = λ a. 0; pool = 0x80400; kernel_pgd = 0x80200000; kernel_satp = 0 };
}

one-IsSpaced : IsSpaced one
one-IsSpaced = (omega arith, omega arith, omega arith, refl, omega arith)

after_it : (vmalloc flat 100 one).0 ≡ 0x84003000
unfolding vmalloc core_vmalloc reserve_area alloc_vm_struct place find_vmalloc_area map_area finish
    fill_pages init_vm_struct pte_valid pte_leaf pgd_index phys_to_pte pte_to_phys pmd_index
after_it = refl

vmalloc-IsAllocated_example : IsAllocated one (pages_of 5000) 0 (vmalloc flat 5000 one)
vmalloc-IsAllocated_example = vmalloc-IsAllocated flat one one-IsSpaced 5000 (omega arith)

ioremap-IsAllocated_example :
    IsAllocated one
      (pages_of (256 + 0x10000010 % page_size))
      (0x10000010 % page_size)
      (ioremap flat 0x10000010 256 one)
ioremap-IsAllocated_example = ioremap-IsAllocated flat one one-IsSpaced 0x10000010 256 (omega arith)

find_vmalloc_area-IsLowest_example :
    IsLowest one.vm_areas vmalloc_start
      (area_size (pages_of 100))
      one.vmlist
      (find_vmalloc_area 100 one)
find_vmalloc_area-IsLowest_example = find_vmalloc_area-IsLowest one 100 one-IsSpaced (omega arith)

vfree-IsSpaced_example : IsSpaced (vfree flat 0x84001000 one)
vfree-IsSpaced_example = vfree-IsSpaced flat 0x84001000 one one-IsSpaced

vfree-vmalloc_example :
    ((vfree flat (vmalloc flat 100 one).0 (vmalloc flat 100 one).1).vmlist ≡ 0 ∷ [])
    × Keeps one_area (vfree flat (vmalloc flat 100 one).0 (vmalloc flat 100 one).1).vm_areas
vfree-vmalloc_example =
    vfree-vmalloc flat 100 one one-IsSpaced refl (omega arith) (omega (arith, after_it))

vfree-pool_example : (vfree flat 0x84001000 one).mmu.pool ≡ 0x80400
vfree-pool_example = vfree-pool flat 0x84001000 one
