-- ===== src/Mm/Vmalloc/Alloc.antt =====
-- The allocations of arch/riscv64/mm/vmalloc.c keep the areas apart, and freeing takes them back.
use Prim.Native.Nat.{bit_or}
use mathlib.Core.Path.{subst}
use minix_rv.Prelude.{
  ℕ, ◌+◌, ◌-◌, ◌*◌, ◌/◌, ◌%◌, ◌^◌, ◌≤◌, ◌≡◌, ◌≢◌, refl, sym, ap, ◌∙◌, ◌⊎◌, inl, inr, Bool, true,
  false, Option, none, some, not, ◌||◌, ◌==◌, Bool-cases, Option-cases, arith,
}
use minix_rv.Mm.PageTable.{Mmu, page_size, u64}
use minix_rv.Mm.Vmalloc.{
  Vmalloc, Machine, vmalloc_start, guarded, insert_area, find_vmalloc_area, free_vm_struct,
  remove_vm_struct, insert_vm_struct, find_vm_area, finish, map_area, core_vmalloc, vmalloc, vmap,
  ioremap, vfree, drop_area, vm_map, vm_ioremap, vm_alloc,
}
use minix_rv.Mm.Vmalloc.Gaps.{
  Gap, Keeps, IsLowest, Spaced-Keeps, Gap-Keeps, Keeps-update, Spaced-insert_area, Spaced-remove,
  find_area-insert_area, remove-insert_area, occurs-Spaced,
}
use minix_rv.Mm.Vmalloc.Reserve.{
  IsSpaced, area_size, Granted, Reserved, reserve_area-Reserved, find_vmalloc_area_lem,
}

guarded-area_size :
    (size : ℕ) → size ≤ 2 ^ 62 → guarded size ≡ area_size ((size + page_size - 1) / page_size)
unfolding guarded
guarded-area_size size h = omega arith

guarded_pages : (n : ℕ) → n ≤ 2 ^ 50 → guarded (n * page_size % u64) ≡ area_size n
unfolding guarded
guarded_pages n h = omega arith

-- The pages for a size.
abbrev pub pages_of : ℕ → ℕ
pages_of size = (size + page_size - 1) / page_size

first : ℕ → Option (ℕ × ℕ) → ℕ
first d none = d
first d (some (a, b)) = a

second : ℕ → Option (ℕ × ℕ) → ℕ
second d none = d
second d (some (a, b)) = b

module _ {A : Type 0} where
  -- What an allocation of `n` pages returns.
  abbrev pub IsAllocated : Vmalloc A → ℕ → ℕ → ℕ × Vmalloc A → Type 0
  IsAllocated s n offset r =
      IsSpaced r.1
      × Keeps s.vm_areas r.1.vm_areas
      × (r.1.vmalloc_initialized ≡ s.vmalloc_initialized)
      × (((r.0 ≡ 0) × (r.1.vmlist ≡ s.vmlist))
          ⊎ ((v : ℕ) × (r.0 ≡ (r.1.vm_areas v).addr + offset)
              × (vmalloc_start ≤ (r.1.vm_areas v).addr)
              × ((r.1.vm_areas v).size ≡ area_size n)
              × Gap s.vm_areas (r.1.vm_areas v).addr (area_size n) s.vmlist
              × ((s.vm_areas v).in_use ≡ false)
              × (r.1.vmlist ≡ insert_area r.1.vm_areas v s.vmlist)))

  module _ (s : Vmalloc A) (n offset : ℕ) (spaced : IsSpaced s) where
    freed :
        {v addr : ℕ} {t : Vmalloc A}
        → Granted s n v addr t
        → Keeps s.vm_areas (free_vm_struct v t).vm_areas
    unfolding free_vm_struct
    freed {v = v} {t = t} g = Keeps-update s.vm_areas t.vm_areas v _ g.unused g.keeps

    Gap-here :
        {v addr : ℕ} {t : Vmalloc A}
        → Granted s n v addr t
        → Gap s.vm_areas (t.vm_areas v).addr (area_size n) s.vmlist
    Gap-here g = subst (λ a. Gap s.vm_areas a (area_size n) s.vmlist) (sym g.at_addr) g.gap

    Gap-there :
        {v addr : ℕ} {t : Vmalloc A}
        → Granted s n v addr t
        → Gap t.vm_areas (t.vm_areas v).addr (t.vm_areas v).size s.vmlist
    Gap-there {v} {addr} {t} g =
        subst (λ k. Gap t.vm_areas (t.vm_areas v).addr k s.vmlist) (sym g.of_size)
          (Gap-Keeps s.vm_areas g.keeps (t.vm_areas v).addr (area_size n) s.vmlist vmalloc_start
            spaced (Gap-here g))

    finish-IsAllocated :
        (v addr : ℕ) (t : Vmalloc A) (ok : Bool) (mmu : Mmu A)
        → Granted s n v addr t
        → IsAllocated s n offset (finish v (addr + offset) (ok, mmu) t)
    unfolding finish insert_vm_struct free_vm_struct
    finish-IsAllocated v addr t true mmu g = (
      rw g.list (
          Spaced-insert_area t.vm_areas v s.vmlist vmalloc_start (omega (arith, g.at_addr, g.low))
            (omega (arith, g.of_size)) g.used (Gap-there g)
            (Spaced-Keeps s.vm_areas g.keeps s.vmlist vmalloc_start spaced)),
      g.keeps,
      g.ready,
      inr (
        v,
        omega (arith, g.at_addr),
        omega (arith, g.at_addr, g.low),
        g.of_size,
        Gap-here g,
        g.unused,
        rw g.list refl,
      ),
    )
    finish-IsAllocated v addr t false mmu g = (
      rw g.list (Spaced-Keeps s.vm_areas (freed g) s.vmlist vmalloc_start spaced),
      freed g,
      g.ready,
      inl (refl, g.list),
    )

    pub map_area-IsAllocated :
        (loop : ℕ → Mmu A → Bool × Mmu A) (r : Option (ℕ × ℕ) × Vmalloc A)
        → Reserved s n r
        → IsAllocated s n offset (map_area offset loop r)
    unfolding map_area first second
    map_area-IsAllocated loop (none, t) (inl (e, kept)) = (
      rw kept.1 (Spaced-Keeps s.vm_areas kept.0 s.vmlist vmalloc_start spaced),
      kept.0,
      kept.2,
      inl (refl, kept.1),
    )
    map_area-IsAllocated loop (none, t) (inr (v, addr, e, g)) = cc
    map_area-IsAllocated loop (some (w, a), t) (inl (e, kept)) = cc
    map_area-IsAllocated loop (some (w, a), t) (inr (v, addr, e, g)) =
        finish-IsAllocated w a t (loop a t.mmu).0 (loop a t.mmu).1 (
          subst (λ k. Granted s n w k t) (sym (ap (second 0) e))
            (subst (λ k. Granted s n k addr t) (sym (ap (first 0) e)) g))

  -- Nothing is changed where an allocation is refused at once.
  refused-IsAllocated : (s : Vmalloc A) (n offset : ℕ) → IsSpaced s → IsAllocated s n offset (0, s)
  refused-IsAllocated s n offset spaced = (spaced, (λ w t. refl), refl, inl (refl, refl))

  module _ (m : Machine A) (s : Vmalloc A) (spaced : IsSpaced s) where
    -- With the areas in use apart, in the order of their addresses and in the range of vmalloc,
    -- `vmalloc` of up to 2 ^ 62 bytes keeps them so and changes no area in use. It returns 0 and
    -- adds none; or the address of a new area, in the list at its place, which was in no use
    -- before: it has the pages for the size and a guard page, and overlaps none of the others.
    pub vmalloc-IsAllocated :
        (size : ℕ) → size ≤ 2 ^ 62 → IsAllocated s (pages_of size) 0 (vmalloc m size s)
    unfolding vmalloc core_vmalloc
    vmalloc-IsAllocated size h =
        let e : (size + page_size - 1) % u64 ≡ size + page_size - 1 = omega arith in
        elim (Bool-cases (not s.vmalloc_initialized || size == 0)) [
          | inl bad ↦ rw bad (refused-IsAllocated s (pages_of size) 0 spaced)
          | inr good ↦
              rw (good, e)
                (map_area-IsAllocated s (pages_of size) 0 spaced _ _ (
                  reserve_area-Reserved s size (pages_of size) vm_alloc 0 spaced
                    (guarded-area_size size h) (omega arith)))
        ]

    pub vmap-IsAllocated :
        (pages nr_pages flags : ℕ)
        → nr_pages ≤ 2 ^ 50
        → IsAllocated s nr_pages 0 (vmap m pages nr_pages flags s)
    unfolding vmap
    vmap-IsAllocated pages nr_pages flags h =
        elim (Bool-cases (not s.vmalloc_initialized || pages == 0 || nr_pages == 0)) [
          | inl bad ↦ rw bad (refused-IsAllocated s nr_pages 0 spaced)
          | inr good ↦ rw good (
              map_area-IsAllocated s nr_pages 0 spaced _ _ (
                reserve_area-Reserved s (nr_pages * page_size % u64) nr_pages (bit_or vm_map flags)
                  pages spaced (guarded_pages nr_pages h) (omega arith)))
        ]

    -- With the areas in use apart, in the order of their addresses and in the range of vmalloc,
    -- `ioremap` of up to 2 ^ 61 bytes of a device at any `phys_addr` keeps them so and changes no
    -- area in use. It returns 0 and adds none; or an address that is as far behind the start of a
    -- new area as `phys_addr` is in its page: the area is in the list at its place, was in no use
    -- before, has the pages that reach to the end of the `size` bytes from that address and a
    -- guard page, and overlaps none of the others.
    pub ioremap-IsAllocated :
        (phys_addr size : ℕ)
        → size ≤ 2 ^ 61
        → IsAllocated s
            (pages_of (size + phys_addr % page_size))
            (phys_addr % page_size)
            (ioremap m phys_addr size s)
    unfolding ioremap
    ioremap-IsAllocated phys_addr size h =
        let offset : ℕ = phys_addr % page_size in
        let n : ℕ = pages_of (size + phys_addr % page_size) in
        let e : (size + phys_addr % page_size + page_size - 1) % u64
            ≡ size + phys_addr % page_size + page_size - 1 =
          omega arith in
        elim (Bool-cases (not s.vmalloc_initialized || size == 0)) [
          | inl bad ↦ rw bad (refused-IsAllocated s n offset spaced)
          | inr good ↦
              rw (good, e)
                (map_area-IsAllocated s n offset spaced _ _ (
                  reserve_area-Reserved s (n * page_size % u64) n vm_ioremap 0 spaced
                    (guarded_pages n (omega arith)) (omega arith)))
        ]

  -- With the areas in use apart, `find_vmalloc_area` for up to 2 ^ 62 bytes gives the lowest
  -- address in the range at which their pages and a guard page overlap no area; 0 means that
  -- there is no such address.
  pub find_vmalloc_area-IsLowest :
      (s : Vmalloc A) (size : ℕ)
      → IsSpaced s
      → size ≤ 2 ^ 62
      → IsLowest s.vm_areas vmalloc_start
          (area_size (pages_of size))
          s.vmlist
          (find_vmalloc_area size s)
  find_vmalloc_area-IsLowest s size spaced h =
      find_vmalloc_area_lem (pages_of size) size s spaced (guarded-area_size size h) (omega arith)

  module _ (m : Machine A) where
    drop_area-IsSpaced : (v : ℕ) (s : Vmalloc A) → IsSpaced s → IsSpaced (drop_area m v s)
    unfolding drop_area remove_vm_struct free_vm_struct
    drop_area-IsSpaced v s spaced = Spaced-remove s.vm_areas v _ s.vmlist vmalloc_start spaced

    -- Freeing an address, whatever it is, keeps the areas in use apart and in order.
    pub vfree-IsSpaced : (addr : ℕ) (s : Vmalloc A) → IsSpaced s → IsSpaced (vfree m addr s)
    unfolding vfree
    vfree-IsSpaced addr s spaced = elim (Bool-cases (addr == 0 || not s.vmalloc_initialized)) [
      | inl bad ↦ rw bad spaced
      | inr good ↦ rw good (elim (Option-cases (find_vm_area addr s)) [
        | inl missing ↦ rw missing spaced
        | inr (v, e) ↦ rw e (drop_area-IsSpaced v s spaced)
      ])
    ]

    vfree-found :
        (addr v : ℕ) (s : Vmalloc A)
        → addr ≢ 0
        → s.vmalloc_initialized ≡ true
        → find_vm_area addr s ≡ some v
        → vfree m addr s ≡ drop_area m v s
    unfolding vfree
    vfree-found addr v s h i e =
        let good : (addr == 0 || not s.vmalloc_initialized) ≡ false = ground arith in rw (good, e)

    drop_area-insert_area :
        (v : ℕ) (s r : Vmalloc A)
        → IsSpaced s
        → Keeps s.vm_areas r.vm_areas
        → (s.vm_areas v).in_use ≡ false
        → r.vmlist ≡ insert_area r.vm_areas v s.vmlist
        → ((drop_area m v r).vmlist ≡ s.vmlist) × Keeps s.vm_areas (drop_area m v r).vm_areas
    unfolding drop_area remove_vm_struct free_vm_struct
    drop_area-insert_area v s r spaced k u e = (
      rw e (
          remove-insert_area r.vm_areas v s.vmlist
            (occurs-Spaced s.vm_areas v s.vmlist vmalloc_start u spaced)),
      Keeps-update s.vm_areas r.vm_areas v _ u k,
    )

    find_vm_area-insert_area :
        (v n : ℕ) (s r : Vmalloc A)
        → IsSpaced s
        → Keeps s.vm_areas r.vm_areas
        → (r.vm_areas v).size ≡ area_size n
        → Gap s.vm_areas (r.vm_areas v).addr (area_size n) s.vmlist
        → r.vmlist ≡ insert_area r.vm_areas v s.vmlist
        → find_vm_area (r.vm_areas v).addr r ≡ some v
    unfolding find_vm_area
    find_vm_area-insert_area v n s r spaced k z g e = rw e (
        find_area-insert_area r.vm_areas v s.vmlist (omega (arith, z))
          (subst (λ i. Gap r.vm_areas (r.vm_areas v).addr i s.vmlist) (sym z)
            (Gap-Keeps s.vm_areas k (r.vm_areas v).addr (area_size n) s.vmlist vmalloc_start spaced
              g))
          vmalloc_start (Spaced-Keeps s.vm_areas k s.vmlist vmalloc_start spaced))

    vfree-IsAllocated :
        (n : ℕ) (s : Vmalloc A) (r : ℕ × Vmalloc A)
        → IsSpaced s
        → s.vmalloc_initialized ≡ true
        → r.0 ≢ 0
        → IsAllocated s n 0 r
        → ((vfree m r.0 r.1).vmlist ≡ s.vmlist) × Keeps s.vm_areas (vfree m r.0 r.1).vm_areas
    vfree-IsAllocated n s r spaced i h (sp, k, ready, inl (none_, list)) = absurd (h none_)
    vfree-IsAllocated n s r spaced i h (sp, k, ready, inr (v, at, low, z, g, u, e)) =
        rw
          (vfree-found r.0 v r.1 h (ready ∙ i) (
            ap (λ a. find_vm_area a r.1) (omega arith)
            ∙ find_vm_area-insert_area v n s r.1 spaced k z g e))
          (drop_area-insert_area v s r.1 spaced k u e)

    -- With the areas in use apart, what `vmalloc` of up to 2 ^ 62 bytes returned, unless it is 0,
    -- is given back by `vfree`: the list of areas is the one before, and every area in use then is
    -- as it was.
    pub vfree-vmalloc :
        (size : ℕ) (s : Vmalloc A)
        → IsSpaced s
        → s.vmalloc_initialized ≡ true
        → size ≤ 2 ^ 62
        → (vmalloc m size s).0 ≢ 0
        → ((vfree m (vmalloc m size s).0 (vmalloc m size s).1).vmlist ≡ s.vmlist)
          × Keeps s.vm_areas (vfree m (vmalloc m size s).0 (vmalloc m size s).1).vm_areas
    vfree-vmalloc size s spaced i h nonzero =
        vfree-IsAllocated (pages_of size) s (vmalloc m size s) spaced i nonzero
          (vmalloc-IsAllocated m s spaced size h)
