-- ===== src/Mm/Buddy/Init/Filled.antt =====
-- What the loops of `page_init` of arch/riscv64/mm/page_alloc.c leave in the free lists.
use Prim.Native.Nat.{bit_and}
use minix_rv.Prelude.{
  ℕ, zero, suc, ◌+◌, ◌-◌, ◌*◌, ◌^◌, ◌%◌, ◌≤◌, ◌<◌, ◌≡◌, refl, sym, ap, ◌∙◌, inl, inr, List, true,
  ◌&&◌, some, arith, ltb, leb, if◌then◌else◌, Bool-cases,
}
use minix_rv.Prelude.Bits.{bit_and-multiple, bit_and-ones}
use minix_rv.Mm.Buddy.{Buddy, u64_mod, max_order, list_add, mark}
use minix_rv.Mm.Buddy.Cover.{inside, inside_self}
use minix_rv.Mm.Buddy.Invariant.{IsBuddy, IsAligned, managed, free_in}
use minix_rv.Mm.Buddy.Blocks.{After, nothing, list_add-After, mark-IsBuddy, IsBuddy-frame}
use minix_rv.Mm.Buddy.Init.{block_fits, largest_order, add_block}

-- 1 for a page from `a` on and before `b`, and 0 for another.
abbrev pub between : ℕ → ℕ → ℕ → ℕ
between a b i = if leb a i && ltb i b then 1 else 0

pub block_fits-aligned :
    (end_pfn pfn o : ℕ)
    → o ≤ max_order
    → block_fits end_pfn pfn o ≡ true
    → ((q : ℕ) × (pfn ≡ q * 2 ^ o)) × (pfn + 2 ^ o ≤ end_pfn)
unfolding block_fits
block_fits-aligned end_pfn pfn o h e =
    let (q, m) = bit_and-multiple o (64 - o) ((pfn + 2 ^ o - 1) % u64_mod) in
    (
      (
        q,
        sym (same e)
            ∙ ap (λ w. bit_and ((pfn + 2 ^ o - 1) % u64_mod) (2 ^ w - 2 ^ o)) (sym whole)
            ∙ m,
      ),
      below e,
    )
  where
    whole : o + (64 - o) ≡ 64
    whole = omega (arith, h)

    same :
        block_fits end_pfn pfn o ≡ true
        → bit_and ((pfn + 2 ^ o - 1) % u64_mod) (u64_mod - 2 ^ o) ≡ pfn
    same e = ground (arith, e)

    below : block_fits end_pfn pfn o ≡ true → pfn + 2 ^ o ≤ end_pfn
    below e = ground (arith, e)

-- A single page fits.
pub block_fits-zero :
    (end_pfn pfn : ℕ) → pfn < end_pfn → end_pfn < u64_mod → block_fits end_pfn pfn 0 ≡ true
unfolding block_fits
block_fits-zero end_pfn pfn h k = ground (arith, bit_and-ones 64 pfn (omega (arith, h, k)), small)
  where
    small : (pfn + 2 ^ 0 - 1) % u64_mod ≡ pfn
    small = omega (arith, h, k)

pub largest_order-fits :
    (end_pfn pfn n : ℕ)
    → block_fits end_pfn pfn 0 ≡ true
    → (o : ℕ) × (largest_order end_pfn pfn (suc n) ≡ some o)
      × (o ≤ n)
      × (block_fits end_pfn pfn o ≡ true)
unfolding largest_order
largest_order-fits end_pfn pfn zero h = (0, ground (arith, h), omega arith, h)
largest_order-fits end_pfn pfn (suc n) h = elim (Bool-cases (block_fits end_pfn pfn (suc n))) [
  | inl fits ↦ (suc n, ground (arith, fits), omega arith, fits)
  | inr too_big ↦
      let (o, e, low, fits) = largest_order-fits end_pfn pfn n h in
      (o, ground (arith, too_big, e), omega (arith, low), fits)
]

-- A block of pages that were not free is added and counted.
pub record Grown (s : Buddy) (lists : ℕ → List ℕ) (o p : ℕ) (s' : Buddy) : Type 0 where
  pub lists' : ℕ → List ℕ
  pub ok : IsBuddy s' lists'
  pub added : (i : ℕ) → free_in lists' i ≡ free_in lists i + inside p o i
  pub start : s'.start_pfn ≡ s.start_pfn
  pub end_ : s'.end_pfn ≡ s.end_pfn
  pub count : s'.free_page_count ≡ (s.free_page_count + 2 ^ o) % u64_mod

pub add_block-Grown :
    {s : Buddy} {lists : ℕ → List ℕ} (b : IsBuddy s lists) (o p : ℕ)
    → o ≤ max_order
    → ((i : ℕ) → free_in lists i + inside p o i ≤ 1)
    → ((i : ℕ) → managed s ≤ i → inside p o i ≡ 0)
    → IsAligned s o p
    → Grown s lists o p (add_block s o p)
unfolding add_block
add_block-Grown {s} {lists} b o p h new fits al = record {
  lists' = added.lists';
  ok = IsBuddy-frame added.ok refl refl (λ k. refl) (λ q. (refl, refl)) (λ q i. refl);
  added = λ i. omega (arith, added.moved i);
  start = added.start;
  end_ = added.end_;
  count = ap (λ n. (n + 2 ^ o) % u64_mod) added.free;
}
  where
    marked : Buddy
    marked = mark s p 9 o (s.mem_map p).ref_count

    ready : IsBuddy marked lists
    ready =
        mark-IsBuddy b p 9 o (s.mem_map p).ref_count s.free_page_count
          (omega (arith, new p, inside_self p o))

    added : After marked lists nothing (inside p o) (list_add marked o p)
    added =
        list_add-After ready o p h new fits (ground arith)
          (record { quotient = al.quotient; multiple = al.multiple })
