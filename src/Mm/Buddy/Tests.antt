-- ===== src/Mm/Buddy/Tests.antt =====
-- Small states of the allocator of arch/riscv64/mm/page_alloc.c.
use minix_rv.Prelude.{
  ℕ, zero, suc, ◌+◌, ◌≤◌, ◌<◌, ◌≡◌, refl, ◌⊎◌, List, [], ◌∷◌, true, none, some, pos, negsuc, arith,
  ◌==◌, if◌then◌else◌, occurs,
}
use minix_rv.Mm.Buddy.{
  Buddy, Page, FreeArea, page_to_phys, max_order, is_free_block, alloc_pages, free_pages,
}
use minix_rv.Mm.Buddy.Invariant.{IsArea, IsBuddy, free_in}
use minix_rv.Mm.Buddy.Alloc.{Allocated, alloc_pages-Allocated}
use minix_rv.Mm.Buddy.Init.{page_init}
use minix_rv.Mm.Buddy.Init.Start.{IsStarted, page_init-IsStarted}
use minix_rv.Mm.Buddy.Free.{IsUsed, Freed, free_pages-Freed}

abbrev blank_page : Page
blank_page = record { flags = 0; order = negsuc 0; next = none; prev = none; ref_count = 0 }

abbrev blank : Buddy
blank = record {
  mem_map = λ i. blank_page;
  mem_map_pages = 0;
  start_pfn = 0;
  end_pfn = 0;
  total_pages = 0;
  free_page_count = 0;
  free_area = λ o. record { free_list = none; nr_free = 0 };
}

abbrev two_areas : ℕ → FreeArea
two_areas zero = record { free_list = some 1; nr_free = 1 }
two_areas (suc o) = record { free_list = none; nr_free = 0 }

-- Two frames, 8 and 9: the first is in use, the second free.
abbrev two : Buddy
two = record blank {
  mem_map = λ i.
      (if i == 1
        then record { flags = 9; order = pos 0; next = none; prev = none; ref_count = 0 }
        else if i == 0
        then record { flags = 10; order = pos 0; next = none; prev = none; ref_count = 1 }
        else blank_page);
  start_pfn = 8;
  end_pfn = 10;
  total_pages = 2;
  free_page_count = 1;
  free_area = two_areas;
}

abbrev two_lists : ℕ → List ℕ
two_lists zero = 1 ∷ []
two_lists (suc o) = []

two_free : (i : ℕ) → free_in two_lists i ≡ (if i == 1 then 1 else 0)
unfolding free_in
two_free i = ground arith

two-IsArea : (o : ℕ) → o ≤ max_order → IsArea two o (two_lists o)
two-IsArea zero h = record {
  links = (refl, refl, refl);
  count = refl;
  orders = λ p i. ground (arith, i);
  aligned = λ p i. record { quotient = p + 8; multiple = omega arith };
}
two-IsArea (suc o) h = record {
  links = refl;
  count = refl;
  orders = λ p i. absurd (omega (arith, i));
  aligned = λ p i. absurd (omega (arith, i));
}

two-IsBuddy : IsBuddy two two_lists
two-IsBuddy = record {
  area = two-IsArea;
  apart = λ i. ground (arith, two_free i);
  within = λ i h. ground (arith, two_free i, h);
}

two_mark : (k m : ℕ) → is_free_block (two.mem_map k) m ≡ true → 0 < occurs k (two_lists m)
unfolding is_free_block
two_mark k zero marked = ground (arith, marked)
two_mark k (suc m) marked = ground (arith, marked)

two-IsUsed : IsUsed two two_lists 0 0
two-IsUsed = record {
  head = refl;
  refs = refl;
  order_field = refl;
  small = omega arith;
  new = λ i. ground (arith, two_free i);
  fits = λ i h. ground (arith, h);
  aligned = record { quotient = 8; multiple = refl };
  truth = λ m q k le top al below above found marked. two_mark k m marked;
}

page_init-IsStarted_example : IsStarted (page_init blank)
page_init-IsStarted_example = page_init-IsStarted blank

alloc_pages-Allocated_example :
    ((alloc_pages two (pos 0) ≡ (0, two)) × ((k : ℕ) → 0 ≤ k → k ≤ max_order → two_lists k ≡ []))
    ⊎ ((page : ℕ) × ((alloc_pages two (pos 0)).0 ≡ page_to_phys two page)
        × Allocated two two_lists 0 page (alloc_pages two (pos 0)).1)
alloc_pages-Allocated_example = alloc_pages-Allocated two-IsBuddy 0 (omega arith)

free_pages-Freed_example : Freed two two_lists 0 0 (free_pages two (page_to_phys two 0) (pos 0))
free_pages-Freed_example = free_pages-Freed two-IsBuddy 0 0 two-IsUsed (omega arith) (omega arith)
