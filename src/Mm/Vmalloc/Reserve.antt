-- ===== src/Mm/Vmalloc/Reserve.antt =====
-- What the common start and end of the allocations of arch/riscv64/mm/vmalloc.c do to the areas.
use mathlib.Core.Path.{subst}
use minix_rv.Prelude.{
  ℕ, zero, suc, ◌+◌, ◌-◌, ◌*◌, ◌≤◌, ◌<◌, ◌≡◌, ◌≢◌, refl, sym, ◌⊎◌, inl, inr, true, false, Option,
  none, some, ◌==◌, Bool-cases, Option-cases, arith,
}
use minix_rv.Fs.Base.{update}
use minix_rv.Mm.PageTable.{page_size, u64}
use minix_rv.Mm.Vmalloc.{
  Vmalloc, VmStruct, vmalloc_start, vmalloc_end, max_vmalloc_areas, free_area, guarded,
  alloc_vm_struct, free_vm_struct, find_vmalloc_area, place, init_vm_struct, reserve_area,
}
use minix_rv.Mm.Vmalloc.Gaps.{
  Spaced, Gap, Keeps, IsLowest, gap_from-IsLowest, gap_from-Keeps, Keeps-update,
}

free_area-unused :
    (n i : ℕ) (areas : ℕ → VmStruct) {v : ℕ}
    → free_area n i areas ≡ some v
    → (areas v).in_use ≡ false
unfolding free_area
free_area-unused zero i areas h = cc
free_area-unused (suc n) i areas {v} h = elim (Bool-cases (areas i).in_use) [
  | inl used ↦ free_area-unused n (suc i) areas {v = v} (rw used at h)
  | inr free ↦ ground (arith)
]

-- The size of an area of `n` pages with its guard page.
abbrev pub area_size : ℕ → ℕ
area_size n = (n + 1) * page_size

module _ {A : Type 0} where
  -- The areas are apart, and those in use are in the list in the order of their addresses.
  abbrev pub IsSpaced : Vmalloc A → Type 0
  IsSpaced s = Spaced s.vm_areas vmalloc_start s.vmlist

  -- The area `v` of `n` pages at `addr` was free, and is in no list yet.
  pub record Granted (s : Vmalloc A) (n v addr : ℕ) (t : Vmalloc A) : Type 0 where
    pub unused : (s.vm_areas v).in_use ≡ false
    pub low : vmalloc_start ≤ addr
    pub gap : Gap s.vm_areas addr (area_size n) s.vmlist
    pub at_addr : (t.vm_areas v).addr ≡ addr
    pub of_size : (t.vm_areas v).size ≡ area_size n
    pub pages : (t.vm_areas v).nr_pages ≡ n
    pub used : (t.vm_areas v).in_use ≡ true
    pub keeps : Keeps s.vm_areas t.vm_areas
    pub list : t.vmlist ≡ s.vmlist
    pub mmu : t.mmu ≡ s.mmu
    pub ready : t.vmalloc_initialized ≡ s.vmalloc_initialized

  abbrev pub Refused : Vmalloc A → Vmalloc A → Type 0
  Refused s t =
      Keeps s.vm_areas t.vm_areas
      × (t.vmlist ≡ s.vmlist)
      × (t.vmalloc_initialized ≡ s.vmalloc_initialized)

  abbrev pub Reserved : Vmalloc A → ℕ → Option (ℕ × ℕ) × Vmalloc A → Type 0
  Reserved s n r =
      ((r.0 ≡ none) × Refused s r.1)
      ⊎ ((v : ℕ) × (addr : ℕ) × (r.0 ≡ some (v, addr)) × Granted s n v addr r.1)

  abbrev taken : ℕ → Vmalloc A → Vmalloc A
  taken v s = record s { vm_areas = update s.vm_areas v (record (s.vm_areas v) { in_use = true }) }

  alloc_vm_struct_cases :
      (s : Vmalloc A)
      → (alloc_vm_struct s ≡ (none, s))
        ⊎ ((v : ℕ) × ((s.vm_areas v).in_use ≡ false) × (alloc_vm_struct s ≡ (some v, taken v s)))
  unfolding alloc_vm_struct
  alloc_vm_struct_cases s = elim (Option-cases (free_area max_vmalloc_areas 0 s.vm_areas)) [
    | inl all_used ↦ inl (rw (all_used, alloc_vm_struct))
    | inr (v, e) ↦
        inr (v, free_area-unused max_vmalloc_areas 0 s.vm_areas e, rw (e, alloc_vm_struct))
  ]

  taken-Keeps :
      (v : ℕ) (s : Vmalloc A)
      → (s.vm_areas v).in_use ≡ false
      → Keeps s.vm_areas (taken v s).vm_areas
  taken-Keeps v s u =
      Keeps-update s.vm_areas s.vm_areas v (record (s.vm_areas v) { in_use = true }) u (λ w t. refl)

  find_vmalloc_area-taken :
      (v size : ℕ) (s : Vmalloc A)
      → (s.vm_areas v).in_use ≡ false
      → IsSpaced s
      → find_vmalloc_area size (taken v s) ≡ find_vmalloc_area size s
  unfolding find_vmalloc_area
  find_vmalloc_area-taken v size s u spaced =
      gap_from-Keeps s.vm_areas (taken-Keeps v s u) s.vmlist vmalloc_start vmalloc_start
        (guarded size) spaced

  -- The gap that is found is the lowest.
  pub find_vmalloc_area_lem :
      (n size : ℕ) (s : Vmalloc A)
      → IsSpaced s
      → guarded size ≡ area_size n
      → area_size n < u64 - vmalloc_end
      → IsLowest s.vm_areas vmalloc_start (area_size n) s.vmlist (find_vmalloc_area size s)
  unfolding find_vmalloc_area
  find_vmalloc_area_lem n size s spaced fits small = rw fits (
      gap_from-IsLowest s.vm_areas s.vmlist vmalloc_start (area_size n) (omega arith) (omega arith)
        small spaced)

  module _ (s : Vmalloc A) (size n flags pages : ℕ) (spaced : IsSpaced s)
      (fits : guarded size ≡ area_size n) (small : area_size n < u64 - vmalloc_end) where
    Granted-init :
        (v addr : ℕ)
        → (s.vm_areas v).in_use ≡ false
        → vmalloc_start ≤ addr
        → Gap s.vm_areas addr (area_size n) s.vmlist
        → Granted s n v addr (init_vm_struct v addr n flags pages (taken v s))
    unfolding init_vm_struct
    Granted-init v addr u low gap = record {
      unused = u;
      low = low;
      gap = gap;
      at_addr = ground arith;
      of_size = ground arith;
      pages = ground arith;
      used = ground arith;
      keeps = Keeps-update s.vm_areas (taken v s).vm_areas v _ u (taken-Keeps v s u);
      list = refl;
      mmu = refl;
      ready = refl;
    }

    place-full :
        (v : ℕ)
        → find_vmalloc_area size (taken v s) ≡ 0
        → place v size n flags pages (taken v s) ≡ (none, free_vm_struct v (taken v s))
    unfolding place
    place-full v e = rw (e, place)

    place-room :
        (v : ℕ)
        → find_vmalloc_area size (taken v s) ≢ 0
        → place v size n flags pages (taken v s) ≡ (
          some (v, find_vmalloc_area size (taken v s)),
          init_vm_struct v (find_vmalloc_area size (taken v s)) n flags pages (taken v s),
        )
    unfolding place
    place-room v e =
        let test : (find_vmalloc_area size (taken v s) == 0) ≡ false = ground arith in
        rw (place, test)

    reserve_area-none :
        alloc_vm_struct s ≡ (none, s) → reserve_area size n flags pages s ≡ (none, s)
    unfolding reserve_area
    reserve_area-none e = rw (e, reserve_area)

    reserve_area-some :
        (v : ℕ)
        → alloc_vm_struct s ≡ (some v, taken v s)
        → reserve_area size n flags pages s ≡ place v size n flags pages (taken v s)
    unfolding reserve_area
    reserve_area-some v e = rw (e, reserve_area)

    refused : (v : ℕ) → (s.vm_areas v).in_use ≡ false → Refused s (free_vm_struct v (taken v s))
    unfolding free_vm_struct
    refused v u =
        (Keeps-update s.vm_areas (taken v s).vm_areas v _ u (taken-Keeps v s u), refl, refl)

    place-Reserved :
        (v : ℕ)
        → (s.vm_areas v).in_use ≡ false
        → IsLowest s.vm_areas vmalloc_start
            (area_size n)
            s.vmlist
            (find_vmalloc_area size (taken v s))
        → Reserved s n (place v size n flags pages (taken v s))
    place-Reserved v u (inl (none_, least)) =
        subst (Reserved s n) (sym (place-full v none_)) (inl (refl, (refused v u)))
    place-Reserved v u (inr (low, gap, least)) =
        subst (Reserved s n) (sym (place-room v (omega arith)))
          (inr (v, find_vmalloc_area size (taken v s), refl, Granted-init v _ u low gap))

    pub reserve_area-Reserved : Reserved s n (reserve_area size n flags pages s)
    reserve_area-Reserved = elim (alloc_vm_struct_cases s) [
      | inl all_used ↦
          subst (Reserved s n) (sym (reserve_area-none all_used))
            (inl (refl, ((λ w t. refl), refl, refl)))
      | inr (v, u, e) ↦ subst (Reserved s n) (sym (reserve_area-some v e)) (
          place-Reserved v u (
            rw (find_vmalloc_area-taken v size s u spaced)
              (find_vmalloc_area_lem n size s spaced fits small)))
    ]
