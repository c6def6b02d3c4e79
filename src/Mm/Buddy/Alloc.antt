-- ===== src/Mm/Buddy/Alloc.antt =====
-- `alloc_pages` of arch/riscv64/mm/page_alloc.c takes a block off the free lists.
use mathlib.Core.Path.{subst}
use native.Mathlib.Nat.{pow-suc, mul_comm, mul_assoc, add-mul, add-zero, add-suc}
use native.Mathlib.Decide.{ℕ_discrete}
use minix_rv.Prelude.{
  ℕ, zero, suc, ◌+◌, ◌-◌, ◌*◌, ◌^◌, ◌≤◌, ◌<◌, ◌≡◌, refl, sym, ap, ◌∙◌, inl, inr, List, [], ◌∷◌,
  false, none, some, pos, arith, ltb, Option-cases, occurs, ◌⊎◌,
}
use minix_rv.Mm.Buddy.{
  Buddy, FreeArea, page_to_phys, pfn_to_phys, sub64, max_order, list_add, list_del, mark,
  find_block, split, take_block, alloc_pages,
}
use minix_rv.Mm.Buddy.Cover.{inside, inside_self, inside-halves}
use minix_rv.Mm.Buddy.Invariant.{
  IsArea, IsBuddy, IsAligned, IsAligned-same, managed, free_in, head-in,
}
use minix_rv.Mm.Buddy.Blocks.{After, nothing, list_add-After, list_del-After, mark-IsBuddy}

-- Both halves of an aligned block are aligned.
pub low-IsAligned : (s : Buddy) (o p : ℕ) → IsAligned s (suc o) p → IsAligned s o p
low-IsAligned s o p a = record {
  quotient = a.quotient * 2;
  multiple =
      a.multiple
      ∙ ap (λ n. a.quotient * n) (pow-suc 2 o)
      ∙ ap (λ n. a.quotient * n) (mul_comm (2 ^ o) 2)
      ∙ sym (mul_assoc a.quotient 2 (2 ^ o));
}

high-IsAligned : (s : Buddy) (o p : ℕ) → IsAligned s (suc o) p → IsAligned s o (p + 2 ^ o)
high-IsAligned s o p a =
    let low = low-IsAligned s o p a in
    record {
      quotient = low.quotient + 1;
      multiple = omega (arith, low.multiple, add-mul low.quotient 1 (2 ^ o));
    }

split-After :
    (page order n : ℕ) {s : Buddy} {lists : ℕ → List ℕ} (b : IsBuddy s lists)
    → order + n ≤ max_order
    → ((i : ℕ) → free_in lists i + inside page (order + n) i ≤ 1)
    → ((i : ℕ) → managed s ≤ i → inside page (order + n) i ≡ 0)
    → IsAligned s (order + n) page
    → After s lists (inside page order) (inside page (order + n)) (split s page order n)
unfolding split
split-After page order zero {s} {lists} b h new fits al = record {
  lists' = lists;
  ok = b;
  moved = λ i. omega (arith, ap (λ k. inside page k i) (add-zero order));
  start = refl;
  end_ = refl;
  free = refl;
}
split-After page order (suc n) {s} {lists} b h new fits al =
    let rest =
      split-After page order n upper.ok (omega (arith, h))
        (λ i. omega (arith, new i, whole i, upper.moved i))
        (λ i k. omega (arith, fits i (omega (arith, k, upper.start, upper.end_)), whole i))
        (IsAligned-same s (list_add marked (order + n) (page + 2 ^ (order + n))) (order + n) page
          upper.start (low-IsAligned s (order + n) page halved)) in
    record {
      lists' = rest.lists';
      ok = rest.ok;
      moved = λ i. omega (arith, rest.moved i, upper.moved i, whole i);
      start = rest.start ∙ upper.start;
      end_ = rest.end_ ∙ upper.end_;
      free = rest.free ∙ upper.free;
    }
  where
    whole :
        (i : ℕ)
        → inside page (order + suc n) i
          ≡ inside page (order + n) i + inside (page + 2 ^ (order + n)) (order + n) i
    whole i = ap (λ m. inside page m i) (add-suc order n) ∙ inside-halves page (order + n) i

    halved : IsAligned s (suc (order + n)) page
    halved = subst (λ m. IsAligned s m page) (add-suc order n) al

    marked : Buddy
    marked = mark s (page + 2 ^ (order + n)) 9 (order + n) 0

    upper :
        After marked lists nothing
          (inside (page + 2 ^ (order + n)) (order + n))
          (list_add marked (order + n) (page + 2 ^ (order + n)))
    upper =
        list_add-After
          (mark-IsBuddy b (page + 2 ^ (order + n)) 9 (order + n) 0 s.free_page_count (
            omega (
              arith,
              new (page + 2 ^ (order + n)),
              whole (page + 2 ^ (order + n)),
              inside_self (page + 2 ^ (order + n)) (order + n),
            )))
          (order + n) (page + 2 ^ (order + n)) (omega (arith, h))
          (λ i. omega (arith, new i, whole i)) (λ i k. omega (arith, fits i k, whole i))
          (ground arith)
          (IsAligned-same s marked (order + n) (page + 2 ^ (order + n)) refl
            (high-IsAligned s (order + n) page halved))

-- The block of order `order` at `page` is taken from the free lists, which are blocks again.
pub record Allocated (s : Buddy) (lists : ℕ → List ℕ) (order page : ℕ) (s' : Buddy) : Type 0 where
  pub lists' : ℕ → List ℕ
  pub ok : IsBuddy s' lists'
  pub taken : (i : ℕ) → free_in lists' i + inside page order i ≡ free_in lists i
  pub aligned : IsAligned s order page
  pub free : s'.free_page_count ≡ sub64 s.free_page_count (2 ^ order)
  pub start : s'.start_pfn ≡ s.start_pfn
  pub end_ : s'.end_pfn ≡ s.end_pfn
  pub used :
      ((s'.mem_map page).flags ≡ 10)
      × ((s'.mem_map page).order ≡ pos order)
      × ((s'.mem_map page).ref_count ≡ 1)

low_part-IsAligned : (s : Buddy) (o n p : ℕ) → IsAligned s (o + n) p → IsAligned s o p
low_part-IsAligned s o zero p a = subst (λ k. IsAligned s k p) (add-zero o) a
low_part-IsAligned s o (suc n) p a =
    low_part-IsAligned s o n p
      (low-IsAligned s (o + n) p (subst (λ m. IsAligned s m p) (add-suc o n) a))

-- Off the free lists, the block is marked and counted.
cut-Allocated :
    {s s1 : Buddy} {lists : ℕ → List ℕ} (order page : ℕ)
    → After s lists (inside page order) nothing s1
    → free_in lists page ≤ 1
    → IsAligned s order page
    → let s2 = mark s1 page 10 order 1 in
      Allocated s lists order page
        (record s2 { free_page_count = sub64 s2.free_page_count (2 ^ order) })
cut-Allocated {s} {s1} {lists} order page cut one al = record {
  lists' = cut.lists';
  ok =
      mark-IsBuddy cut.ok page 10 order 1 (sub64 s1.free_page_count (2 ^ order))
        (omega (arith, cut.moved page, inside_self page order, one));
  taken = λ i. omega (arith, cut.moved i);
  aligned = al;
  free = ap (λ n. sub64 n (2 ^ order)) cut.free;
  start = cut.start;
  end_ = cut.end_;
  used = (ground arith, ground arith, ground arith);
}

take_block-Allocated :
    {s : Buddy} {lists : ℕ → List ℕ} (b : IsBuddy s lists) (order k page : ℕ)
    → order ≤ k
    → k ≤ max_order
    → (s.free_area k).free_list ≡ some page
    → Allocated s lists order page (take_block s order k page)
unfolding take_block
take_block-Allocated {s} {lists} b order k page low high first =
    cut-Allocated order page
      (record {
        lists' = cut.lists';
        ok = cut.ok;
        moved = λ i. omega (arith, cut.moved i, gone.moved i, block i);
        start = cut.start ∙ gone.start;
        end_ = cut.end_ ∙ gone.end_;
        free = cut.free ∙ gone.free;
      })
      (b.apart page)
      (low_part-IsAligned s order (k - order) page (subst (λ m. IsAligned s m page) (sym whole) al))
  where
    whole : order + (k - order) ≡ k
    whole = omega (arith, low)

    block : (i : ℕ) → inside page (order + (k - order)) i ≡ inside page k i
    block i = ap (λ m. inside page m i) whole

    mem : 0 < occurs page (lists k)
    mem = head-in b k page high first

    al : IsAligned s k page
    al = (b.area k high).aligned page mem

    gone : After s lists (inside page k) nothing (list_del s k page)
    gone = list_del-After b k page high mem

    cut :
        After
          (list_del s k page)
          gone.lists'
          (inside page order)
          (inside page (order + (k - order)))
          (split (list_del s k page) page order (k - order))
    cut =
        split-After page order (k - order) gone.ok (omega (arith, whole, high))
          (λ i. omega (arith, gone.moved i, block i, b.apart i))
          (λ i h.
            omega
              (arith, gone.moved i, block i, b.within i (omega (arith, h, gone.start, gone.end_))))
          (IsAligned-same s (list_del s k page) (order + (k - order)) page gone.start
            (subst (λ m. IsAligned s m page) (sym whole) al))

-- The first order whose list is not empty.
find_block-first :
    (areas : ℕ → FreeArea) (n k : ℕ)
    → ((find_block areas n k ≡ none) × ((j : ℕ) → k ≤ j → j < k + n → (areas j).free_list ≡ none))
      ⊎ ((j : ℕ) × (page : ℕ) × (find_block areas n k ≡ some (j, page))
          × (k ≤ j)
          × (j < k + n)
          × ((areas j).free_list ≡ some page))
unfolding find_block
find_block-first areas zero k = inl (refl, λ j h l. absurd (omega (arith, h, l)))
find_block-first areas (suc n) k = elim (Option-cases (areas k).free_list) [
  | inr (p, e) ↦ inr (k, p, rw (e, find_block) refl, omega arith, omega arith, e)
  | inl e ↦ elim (find_block-first areas n (suc k)) [
    | inl (none_left, empty) ↦ inl (
      rw (e, find_block) none_left,
      λ j h l. elim (ℕ_discrete k j) [
        | yes same ↦ ap (λ i. (areas i).free_list) (sym same) ∙ e
        | no ne ↦ empty j (omega (arith, h, ne)) (omega (arith, l))
      ],
    )
    | inr (j, page, found, h, l, at) ↦
        inr (j, page, rw (e, find_block) found, omega (arith, h), omega (arith, l), at)
  ]
]

no_head-empty :
    {s : Buddy} {o : ℕ} (l : List ℕ) → IsArea s o l → (s.free_area o).free_list ≡ none → l ≡ []
no_head-empty [] a e = refl
no_head-empty (p ∷ l) a e = absurd (cc (a.links.0, e))

-- Where every free list is a list of blocks that do not overlap, `alloc_pages` of an order up to 11 either
-- returns 0, leaves the state as it is, and every list of that order or above is empty; or it returns the
-- address of a page such that the free pages before are exactly those after with those of the block of
-- that order at the page, the lists are again lists of blocks that do not overlap, the block is aligned to
-- its size, the count of free pages falls by its size modulo 2 ^ 64, and its page is marked used with its order
-- and one reference.
pub alloc_pages-Allocated :
    {s : Buddy} {lists : ℕ → List ℕ}
    → IsBuddy s lists
    → (order : ℕ) → order ≤ max_order
    → ((alloc_pages s (pos order) ≡ (0, s)) × ((k : ℕ) → order ≤ k → k ≤ max_order → lists k ≡ []))
      ⊎ ((page : ℕ) × ((alloc_pages s (pos order)).0 ≡ page_to_phys s page)
          × Allocated s lists order page (alloc_pages s (pos order)).1)
unfolding alloc_pages
alloc_pages-Allocated {s} {lists} b order h =
    elim (find_block-first s.free_area (max_order + 1 - order) order) [
      | inl (nothing_left, empty) ↦ inl (
        rw (small, nothing_left) refl,
        λ k low high.
            no_head-empty (lists k) (b.area k high) (empty k low (omega (arith, h, high))),
      )
      | inr (k, page, found, low, high, at) ↦ inr (
        page,
        rw (small, found) (ap (λ n. pfn_to_phys (page + n)) (block k page low high at).start),
        rw (small, found) (block k page low high at),
      )
    ]
  where
    block :
        (k page : ℕ)
        → order ≤ k
        → k < order + (max_order + 1 - order)
        → (s.free_area k).free_list ≡ some page
        → Allocated s lists order page (take_block s order k page)
    block k page low high at = take_block-Allocated b order k page low (omega (arith, h, high)) at

    small : ltb max_order order ≡ false
    small = ground (arith, h)
