-- ===== src/Mm/Buddy/Init/Start.antt =====
-- The free lists after `page_init` of arch/riscv64/mm/page_alloc.c.
use mathlib.Core.Path.{subst}
use Prim.Native.Nat.{bit_and}
use native.Mathlib.Decide.{ℕ_discrete}
use minix_rv.Prelude.{
  ℕ, zero, suc, ◌+◌, ◌-◌, ◌≤◌, ◌<◌, ◌≡◌, refl, sym, ap, ◌∙◌, List, [], none, arith,
}
use minix_rv.Mm.Buddy.{Buddy, FreeArea, max_order}
use minix_rv.Mm.Buddy.Cover.{cover}
use minix_rv.Mm.Buddy.Invariant.{IsBuddy, free_in}
use minix_rv.Mm.Buddy.Init.{
  clear_pages, clear_areas, reserve_pages, add_blocks, align_start, page_init,
}
use minix_rv.Mm.Buddy.Init.Filled.{between}
use minix_rv.Mm.Buddy.Init.Loop.{Filled, add_blocks-Filled}

-- The state before the pages are added: `n` pages and the orders below `k` are cleared.
record Cleared (s s' : Buddy) : Type 0 where
  areas : (o : ℕ) → s'.free_area o ≡ s.free_area o
  start : s'.start_pfn ≡ s.start_pfn
  end_ : s'.end_pfn ≡ s.end_pfn

clear_pages-Cleared : (n i : ℕ) (s : Buddy) → Cleared s (clear_pages n i s)
unfolding clear_pages
clear_pages-Cleared zero i s = record { areas = λ o. refl; start = refl; end_ = refl }
clear_pages-Cleared (suc n) i s =
    let rest = clear_pages-Cleared n (suc i) _ in
    record { areas = rest.areas; start = rest.start; end_ = rest.end_ }

reserve_pages-Cleared : (n i : ℕ) (s : Buddy) → Cleared s (reserve_pages n i s)
unfolding reserve_pages
reserve_pages-Cleared zero i s = record { areas = λ o. refl; start = refl; end_ = refl }
reserve_pages-Cleared (suc n) i s =
    let rest = reserve_pages-Cleared n (suc i) _ in
    record { areas = rest.areas; start = rest.start; end_ = rest.end_ }

clear_areas-other :
    (n k : ℕ) (s : Buddy) (o : ℕ) → o < k → (clear_areas n k s).free_area o ≡ s.free_area o
unfolding clear_areas
clear_areas-other zero k s o h = refl
clear_areas-other (suc n) k s o h =
    clear_areas-other n (suc k) _ o (omega (arith, h)) ∙ ground (arith, h)

clear_areas-empty :
    (n k : ℕ) (s : Buddy) (o : ℕ)
    → k ≤ o
    → o < k + n
    → (clear_areas n k s).free_area o ≡ record { free_list = none; nr_free = 0 }
unfolding clear_areas
clear_areas-empty zero k s o h l = absurd (omega (arith, h, l))
clear_areas-empty (suc n) k s o h l = elim (ℕ_discrete k o) [
  | yes same ↦ clear_areas-other n (suc k) _ o (omega (arith, same)) ∙ ground (arith, same)
  | no ne ↦ clear_areas-empty n (suc k) _ o (omega (arith, h, ne)) (omega (arith, l))
]

clear_areas-Bounds :
    (n k : ℕ) (s : Buddy)
    → ((clear_areas n k s).start_pfn ≡ s.start_pfn) × ((clear_areas n k s).end_pfn ≡ s.end_pfn)
unfolding clear_areas
clear_areas-Bounds zero k s = (refl, refl)
clear_areas-Bounds (suc n) k s = clear_areas-Bounds n (suc k) _

cover-empty : (n i : ℕ) → cover (λ o. []) n i ≡ 0
cover-empty zero i = refl
cover-empty (suc n) i = omega (arith, cover-empty n i)

empty-IsBuddy :
    {s : Buddy}
    → ((o : ℕ) → o ≤ max_order → s.free_area o ≡ record { free_list = none; nr_free = 0 })
    → IsBuddy s (λ o. [])
unfolding free_in
empty-IsBuddy {s} areas = record {
  area = λ o h. record {
    links = ap (λ (a : FreeArea). a.free_list) (areas o h);
    count = ap (λ (a : FreeArea). a.nr_free) (areas o h);
    orders = λ p i. absurd (omega (arith, i));
    aligned = λ p i. absurd (omega (arith, i));
  };
  apart = λ i. omega (arith, cover-empty (suc max_order) i);
  within = λ i h. cover-empty (suc max_order) i;
}

-- Before the loop: what the pages before it occupy does not matter to the lists, which are empty.
ready-Filled :
    (s : Buddy)
    → ((o : ℕ) → o ≤ max_order → s.free_area o ≡ record { free_list = none; nr_free = 0 })
    → s.start_pfn ≡ 525312
    → s.end_pfn ≡ 557056
    → Filled
        (record s { free_page_count = 0 })
        (λ o. [])
        (s.start_pfn + 310 - s.start_pfn)
        (add_blocks 31744 (record s { free_page_count = 0 }) (s.start_pfn + 310))
unfolding free_in
ready-Filled s areas at_start at_end =
    add_blocks-Filled 31744 (empty-IsBuddy areas) (s.start_pfn + 310) (omega arith)
      (omega (arith, at_start, at_end)) (omega (arith, at_end)) (omega (arith, at_start, at_end))
      (omega (arith, at_start, at_end)) (λ i h. cover-empty (suc max_order) i)

-- The free lists are blocks that are aligned and do not overlap, of the pages behind those of `mem_map`.
pub record IsStarted (s : Buddy) : Type 0 where
  pub lists : ℕ → List ℕ
  pub ok : IsBuddy s lists
  pub pages : (i : ℕ) → free_in lists i ≡ between 310 31744 i
  pub start : s.start_pfn ≡ 525312
  pub end_ : s.end_pfn ≡ 557056
  pub count : s.free_page_count ≡ 31434

ready-IsStarted :
    (s : Buddy)
    → ((o : ℕ) → o ≤ max_order → s.free_area o ≡ record { free_list = none; nr_free = 0 })
    → s.start_pfn ≡ 525312
    → s.end_pfn ≡ 557056
    → IsStarted (add_blocks 31744 (record s { free_page_count = 0 }) (s.start_pfn + 310))
unfolding free_in
ready-IsStarted s areas at_start at_end =
    let filled = ready-Filled s areas at_start at_end in
    record {
      lists = filled.lists';
      ok = filled.ok;
      pages = λ i. ground (arith, filled.added i, cover-empty (suc max_order) i, at_start, at_end);
      start = filled.start ∙ at_start;
      end_ = filled.end_ ∙ at_end;
      count = omega (arith, filled.count, at_start, at_end);
    }

align_start-even : (s : Buddy) (pfn : ℕ) → bit_and pfn 1 ≡ 0 → align_start s pfn ≡ (pfn, s)
unfolding align_start
align_start-even s pfn e = rw e refl

-- After `page_init`, from any state, every free list is a list of blocks that are aligned and do not overlap; the
-- free pages are exactly those of the frames 525622 to 557055, from behind the 310 pages of `mem_map` to
-- the end of memory; and `free_page_count` is their number, 31434.
pub page_init-IsStarted : (s : Buddy) → IsStarted (page_init s)
unfolding page_init
page_init-IsStarted s =
    subst (λ (r : ℕ × Buddy). IsStarted (add_blocks 31744 (record r.1 { free_page_count = 0 }) r.0))
      (sym (align_start-even s3 (s3.start_pfn + 310) (ap (λ n. bit_and (n + 310) 1) at_start)))
      (ready-IsStarted s3 areas at_start at_end)
  where
    s2 : Buddy
    s2 = record s { start_pfn = 525312; end_pfn = 557056; total_pages = 31744; mem_map_pages = 310 }

    s3 : Buddy
    s3 = reserve_pages 310 0 (clear_areas 12 0 (clear_pages 31744 0 s2))

    at_start : s3.start_pfn ≡ 525312
    at_start =
        (reserve_pages-Cleared 310 0 (clear_areas 12 0 (clear_pages 31744 0 s2))).start
        ∙ (clear_areas-Bounds 12 0 (clear_pages 31744 0 s2)).0
        ∙ (clear_pages-Cleared 31744 0 s2).start

    at_end : s3.end_pfn ≡ 557056
    at_end =
        (reserve_pages-Cleared 310 0 (clear_areas 12 0 (clear_pages 31744 0 s2))).end_
        ∙ (clear_areas-Bounds 12 0 (clear_pages 31744 0 s2)).1
        ∙ (clear_pages-Cleared 31744 0 s2).end_

    areas : (o : ℕ) → o ≤ max_order → s3.free_area o ≡ record { free_list = none; nr_free = 0 }
    areas o h =
        (reserve_pages-Cleared 310 0 (clear_areas 12 0 (clear_pages 31744 0 s2))).areas o
        ∙ clear_areas-empty 12 0 (clear_pages 31744 0 s2) o (omega arith) (omega (arith, h))
