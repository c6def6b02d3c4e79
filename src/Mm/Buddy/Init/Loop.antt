-- ===== src/Mm/Buddy/Init/Loop.antt =====
-- The loop of `page_init` of arch/riscv64/mm/page_alloc.c that adds the pages.
use minix_rv.Prelude.{
  ℕ, zero, suc, ◌+◌, ◌-◌, ◌*◌, ◌^◌, ◌≤◌, ◌<◌, ◌≡◌, refl, ◌∙◌, inl, inr, List, true, some, arith,
  ltb, Bool-cases,
}
use minix_rv.Mm.Buddy.{Buddy, u64_mod, max_order}
use minix_rv.Mm.Buddy.Cover.{pow-positive}
use minix_rv.Mm.Buddy.Invariant.{IsBuddy, managed, free_in}
use minix_rv.Mm.Buddy.Init.{block_fits, largest_order, add_block, add_blocks}
use minix_rv.Mm.Buddy.Init.Filled.{
  between, block_fits-aligned, block_fits-zero, largest_order-fits, Grown, add_block-Grown,
}

-- The pages from `first` on become free, in lists that are blocks.
pub record Filled (s : Buddy) (lists : ℕ → List ℕ) (first : ℕ) (s' : Buddy) : Type 0 where
  pub lists' : ℕ → List ℕ
  pub ok : IsBuddy s' lists'
  pub added : (i : ℕ) → free_in lists' i ≡ free_in lists i + between first (managed s) i
  pub start : s'.start_pfn ≡ s.start_pfn
  pub end_ : s'.end_pfn ≡ s.end_pfn
  pub count : s'.free_page_count ≡ s.free_page_count + (managed s - first)

-- The loop after its first block.
Filled-step :
    {s s1 s2 : Buddy} {lists : ℕ → List ℕ} (o pfn : ℕ)
    → s.start_pfn ≤ pfn
    → pfn + 2 ^ o ≤ s.end_pfn
    → s.free_page_count + (s.end_pfn - pfn) < u64_mod
    → (g : Grown s lists o (pfn - s.start_pfn) s1)
    → Filled s1 g.lists' (pfn + 2 ^ o - s1.start_pfn) s2
    → Filled s lists (pfn - s.start_pfn) s2
Filled-step {s} {s1} {s2} {lists} o pfn low below room g rest = record {
  lists' = rest.lists';
  ok = rest.ok;
  added = λ i. rest.added i ∙ two i;
  start = rest.start ∙ g.start;
  end_ = rest.end_ ∙ g.end_;
  count = omega (arith, rest.count, g.count, g.start, g.end_, low, below, room);
}
  where
    two :
        (i : ℕ)
        → free_in g.lists' i + between (pfn + 2 ^ o - s1.start_pfn) (managed s1) i
          ≡ free_in lists i + between (pfn - s.start_pfn) (managed s) i
    two i = ground (arith, g.added i, g.start, g.end_, low, below, pow-positive o)

pub add_blocks-Filled :
    (n : ℕ) {s : Buddy} {lists : ℕ → List ℕ} (b : IsBuddy s lists) (pfn : ℕ)
    → s.start_pfn ≤ pfn
    → pfn ≤ s.end_pfn
    → s.end_pfn < u64_mod
    → s.end_pfn - pfn ≤ n
    → s.free_page_count + (s.end_pfn - pfn) < u64_mod
    → ((i : ℕ) → pfn - s.start_pfn ≤ i → free_in lists i ≡ 0)
    → Filled s lists (pfn - s.start_pfn) (add_blocks n s pfn)
unfolding add_blocks
add_blocks-Filled zero {s} {lists} b pfn low high wide enough room new = record {
  lists' = lists;
  ok = b;
  added = λ i. ground arith;
  start = refl;
  end_ = refl;
  count = omega arith;
}
add_blocks-Filled (suc n) {s} {lists} b pfn low high wide enough room new =
    elim (Bool-cases (ltb pfn s.end_pfn)) [
      | inr over ↦
          rw (over, add_blocks)
            (record {
              lists' = lists;
              ok = b;
              added = λ i. ground (arith, over);
              start = refl;
              end_ = refl;
              count = ground (arith, over);
            })
      | inl more ↦
          let (o, found, filled) =
            next
              (λ o q mult small below.
                add_blocks-Filled n (block o q mult small below).ok (pfn + 2 ^ o)
                  (omega (arith, low, (block o q mult small below).start))
                  (omega (arith, below, (block o q mult small below).end_))
                  (omega (arith, wide, (block o q mult small below).end_))
                  (omega (arith, enough, pow-positive o, (block o q mult small below).end_))
                  (omega (
                    arith,
                    room,
                    below,
                    (block o q mult small below).end_,
                    (block o q mult small below).count,
                  ))
                  (λ i h.
                    after o q mult small below i
                      (omega (arith, h, (block o q mult small below).start))))
              (largest_order-fits s.end_pfn pfn max_order
                (block_fits-zero s.end_pfn pfn (ground (arith, more)) wide)) in
          rw (more, found, add_blocks) filled
    ]
  where
    block :
        (o q : ℕ)
        → pfn ≡ q * 2 ^ o
        → o ≤ max_order
        → pfn + 2 ^ o ≤ s.end_pfn
        → Grown s lists o (pfn - s.start_pfn) (add_block s o (pfn - s.start_pfn))
    block o q mult small below =
        add_block-Grown b o (pfn - s.start_pfn) small (λ i. ground (arith, new i, b.apart i))
          (λ i h. ground (arith, h, low, below))
          (record { quotient = q; multiple = omega (arith, mult, low) })

    after :
        (o q : ℕ) (mult : pfn ≡ q * 2 ^ o) (small : o ≤ max_order) (below : pfn + 2 ^ o ≤ s.end_pfn)
        (i : ℕ)
        → pfn + 2 ^ o - s.start_pfn ≤ i
        → free_in (block o q mult small below).lists' i ≡ 0
    after o q mult small below i h =
        (block o q mult small below).added i ∙ ground (arith, new i, h, low)

    next :
        ((o q : ℕ) (mult : pfn ≡ q * 2 ^ o) (small : o ≤ max_order)
            (below : pfn + 2 ^ o ≤ s.end_pfn)
          → Filled
              (add_block s o (pfn - s.start_pfn))
              (block o q mult small below).lists'
              (pfn + 2 ^ o - (add_block s o (pfn - s.start_pfn)).start_pfn)
              (add_blocks n (add_block s o (pfn - s.start_pfn)) (pfn + 2 ^ o)))
        → (o : ℕ) × (largest_order s.end_pfn pfn (suc max_order) ≡ some o)
          × (o ≤ max_order)
          × (block_fits s.end_pfn pfn o ≡ true)
        → (o : ℕ) × (largest_order s.end_pfn pfn (suc max_order) ≡ some o)
          × Filled s lists
              (pfn - s.start_pfn)
              (add_blocks n (add_block s o (pfn - s.start_pfn)) (pfn + 2 ^ o))
    next rest (o, found, small, fits) =
        let ((q, mult), below) = block_fits-aligned s.end_pfn pfn o small fits in
        (
          o,
          found,
          Filled-step o pfn low below room (block o q mult small below) (rest o q mult small below),
        )
