-- ===== src/Mm/PageTable/Giga.antt =====
-- Entries of the page tables of arch/riscv64/mm/pgtable.c, and the pages of 1 GB that they map.
use mathlib.Core.Path.{subst}
use Prim.Native.Nat.{bit_and, bit_or}
use minix_rv.Prelude.{
  ℕ, ◌+◌, ◌*◌, ◌/◌, ◌%◌, ◌^◌, ◌<◌, ◌≡◌, refl, sym, ap, ◌∙◌, Bool, true, false, not, Option, none,
  some, ◌==◌, if◌then◌else◌, arith,
}
use minix_rv.Prelude.Bits.{
  bit_or-add, bit_and-low, bit_or-lt, bit_and-pow, digit-bit_or, digit-pow, digit-lt,
}
use minix_rv.Fs.Base.{update}
use minix_rv.Mm.PageTable.{
  Mmu, page_size, pgdir_size, pte_v, pte_rwx, pgd_index, pte_valid, pte_leaf, pte_to_phys,
  phys_to_pte, entry, align, ensure_table, walk_pmd, walk_pgtable, map_page_1g, lookup_pa,
}

entry_sum :
    (phys flags : ℕ)
    → phys < 2 ^ 56
    → flags < 2 ^ 10
    → phys_to_pte phys flags ≡ phys / page_size * 2 ^ 10 + flags
unfolding phys_to_pte
entry_sum phys flags h k =
    ap (λ t. bit_or t flags) (omega (arith, h)) ∙ bit_or-add 10 (phys / page_size) flags k

-- For a physical address below 2 ^ 56 and flags below 1024, the entry made of them leads back to the address with its
-- offset in the page dropped, and under any mask below 1024 it shows the flags.
pub pte_to_phys-phys_to_pte :
    (phys flags mask : ℕ)
    → phys < 2 ^ 56
    → flags < 2 ^ 10
    → mask < 2 ^ 10
    → (pte_to_phys (phys_to_pte phys flags) ≡ align page_size phys)
      × (bit_and (phys_to_pte phys flags) mask ≡ bit_and flags mask)
unfolding pte_to_phys
pte_to_phys-phys_to_pte phys flags mask h k l = (
  omega (arith, entry_sum phys flags h k, h, k),
  ap (λ t. bit_and t mask) (entry_sum phys flags h k)
      ∙ bit_and-low 10 (phys / page_size) flags mask k l,
)

valid_flag : (flags : ℕ) → bit_and (bit_or flags 1) 1 ≡ 1
valid_flag flags =
    bit_and-pow 0 (bit_or flags 1)
    ∙ omega (arith, digit-bit_or 0 flags 1, digit-pow 0 0, digit-lt 0 flags)

ensure_valid :
    {A : Type 0} (alloc_page : A → ℕ × A) (create : Bool) (a : ℕ) (s : Mmu A)
    → pte_valid (s.mem a) ≡ true
    → ensure_table alloc_page create a s ≡ (true, s)
unfolding ensure_table
ensure_valid alloc_page create a s valid = rw (valid, ensure_table) refl

-- A valid leaf of the root table ends the walk, and what it leads to is looked up.
walk_leaf :
    {A : Type 0} (alloc_page : A → ℕ × A) (s : Mmu A) (pgd va : ℕ) (create : Bool)
    → pte_valid (s.mem (entry pgd (pgd_index va))) ≡ true
    → pte_leaf (s.mem (entry pgd (pgd_index va))) ≡ true
    → walk_pgtable alloc_page s pgd va create ≡ (some (entry pgd (pgd_index va)), s)
unfolding walk_pgtable
walk_leaf {A} alloc_page s pgd va create valid leaf =
    subst
      (λ (r : Bool × Mmu A).
        (if not r.0
          then (none, r.1)
          else if pte_leaf (r.1.mem a)
          then (some a, r.1)
          else walk_pmd alloc_page (pte_to_phys (r.1.mem a)) va create r.1)
        ≡ (some a, s))
      (sym (ensure_valid alloc_page create a s valid)) (rw leaf refl)
  where
    a : ℕ
    a = entry pgd (pgd_index va)

lookup_leaf :
    {A : Type 0} (alloc_page : A → ℕ × A) (s : Mmu A) (va : ℕ)
    → pte_valid (s.mem (entry s.kernel_pgd (pgd_index va))) ≡ true
    → pte_leaf (s.mem (entry s.kernel_pgd (pgd_index va))) ≡ true
    → lookup_pa alloc_page s va
      ≡ bit_or (pte_to_phys (s.mem (entry s.kernel_pgd (pgd_index va)))) (va % page_size)
unfolding lookup_pa
lookup_leaf {A} alloc_page s va valid leaf =
    subst
      (λ (r : Option ℕ × Mmu A).
        (elim r.0 [
          | none ↦ 0
          | some a ↦
              if pte_valid (r.1.mem a) then bit_or (pte_to_phys (r.1.mem a)) (va % page_size) else 0
        ])
        ≡ bit_or (pte_to_phys (s.mem (entry s.kernel_pgd (pgd_index va)))) (va % page_size))
      (sym (walk_leaf alloc_page s s.kernel_pgd va false valid leaf)) (rw valid refl)

pgd_index-align : (va : ℕ) → pgd_index (align pgdir_size va) ≡ pgd_index va
unfolding pgd_index
pgd_index-align va = omega arith

pte_valid-one : (pte : ℕ) → bit_and pte pte_v ≡ 1 → pte_valid pte ≡ true
unfolding pte_valid
pte_valid-one pte e = rw e refl

pte_leaf-some : (pte : ℕ) → (bit_and pte pte_rwx == 0) ≡ false → pte_leaf pte ≡ true
unfolding pte_leaf
pte_leaf-some pte e = rw e refl

-- After `map_page_1g` into the kernel's table, with a physical address below 2 ^ 56 and flags below 1024 of which one
-- allows an access, `lookup_pa` of any address in the same 1 GB of the 512 GB gives the base of the physical
-- page with the low 12 bits of the address, and not the bits from 12 to 29.
pub lookup_pa-map_page_1g :
    {A : Type 0} (alloc_page : A → ℕ × A) (s : Mmu A) (va va' pa flags : ℕ)
    → pgd_index va' ≡ pgd_index va
    → pa < 2 ^ 56
    → flags < 2 ^ 10
    → (bit_and (bit_or flags pte_v) pte_rwx == 0) ≡ false
    → lookup_pa alloc_page (map_page_1g alloc_page s s.kernel_pgd va pa flags).1 va'
      ≡ bit_or (align pgdir_size pa) (va' % page_size)
unfolding map_page_1g
lookup_pa-map_page_1g alloc_page s va va' pa flags same small few leaf =
    lookup_leaf alloc_page (map_page_1g alloc_page s s.kernel_pgd va pa flags).1 va'
      (ap pte_valid found ∙ valid) (ap pte_leaf found ∙ leaf_entry)
    ∙ ap (λ t. bit_or t (va' % page_size))
        (ap pte_to_phys found ∙ (facts 0 (omega arith)).0 ∙ aligned)
  where
    pte : ℕ
    pte = phys_to_pte (align pgdir_size pa) (bit_or flags pte_v)

    facts :
        (mask : ℕ)
        → mask < 2 ^ 10
        → (pte_to_phys pte ≡ align page_size (align pgdir_size pa))
          × (bit_and pte mask ≡ bit_and (bit_or flags pte_v) mask)
    facts mask l =
        pte_to_phys-phys_to_pte (align pgdir_size pa) (bit_or flags pte_v) mask
          (omega (arith, small)) (bit_or-lt 10 flags 1 few (omega arith)) l

    found :
        update s.mem
          (entry s.kernel_pgd (pgd_index (align pgdir_size va)))
          pte
          (entry s.kernel_pgd (pgd_index va'))
        ≡ pte
    found = ground (arith, same, pgd_index-align va)

    aligned : align page_size (align pgdir_size pa) ≡ align pgdir_size pa
    aligned = omega arith

    valid : pte_valid pte ≡ true
    valid = pte_valid-one pte ((facts 1 (omega arith)).1 ∙ valid_flag flags)

    leaf_entry : pte_leaf pte ≡ true
    leaf_entry = pte_leaf-some pte (ap (λ t. t == 0) (facts 14 (omega arith)).1 ∙ leaf)
