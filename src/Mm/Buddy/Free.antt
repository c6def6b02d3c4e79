-- ===== src/Mm/Buddy/Free.antt =====
-- `free_pages` of arch/riscv64/mm/page_alloc.c: the freed block is merged with its buddies.
mod Merge
use Prim.Native.Nat.{bit_and}
use mathlib.Core.Path.{subst}
use native.Mathlib.Nat.{add-zero, add-suc, pow-suc}
use native.Mathlib.Decide.{ℕ_discrete}
use minix_rv.Prelude.{
  ℕ, zero, suc, ◌+◌, ◌-◌, ◌*◌, ◌/◌, ◌^◌, ◌%◌, ◌≤◌, ◌<◌, ◌≡◌, ◌≢◌, refl, sym, ap, ◌∙◌, inl, inr,
  List, [], ◌∷◌, Bool, true, false, not, ◌&&◌, ◌||◌, Option, none, some, ℤ, pos, negsuc, arith,
  ◌==◌, ltb, leb, if◌then◌else◌, Bool-cases, Option-cases, ◌⊎◌, length, occurs, remove,
}
use minix_rv.Fs.Base.{update}
use minix_rv.Mm.Buddy.{
  Buddy, Page, FreeArea, page_to_pfn, pfn_to_page, phys_to_pfn, u64_mod, max_order, set_page,
  page_size, page_to_phys, list_add, list_del, find_buddy, is_free_block, coalesce, release,
  drop_ref, free_pages,
}
use minix_rv.Mm.Buddy.Effect.{next_of, prev_of, Deleted}
use minix_rv.Mm.Buddy.Cover.{inside, inside-halves, inside_self, pow-positive}
use minix_rv.Mm.Buddy.Invariant.{IsArea, IsBuddy, IsAligned, IsAligned-same, managed, free_in}
use minix_rv.Mm.Buddy.Blocks.{After, nothing, list_add-After, IsBuddy-frame}
use minix_rv.Mm.Buddy.Pair.{ArePair, find_buddy-ArePair}
use minix_rv.Mm.Buddy.Free.Merge.{
  AreTrue, merge, Merged, merge-Merged, pair-inside, find_buddy-same,
}

coalesce-After :
    (n o p : ℕ) {s : Buddy} {lists : ℕ → List ℕ} (b : IsBuddy s lists)
    → o + n ≡ max_order
    → ((i : ℕ) → free_in lists i + inside p o i ≤ 1)
    → ((i : ℕ) → managed s ≤ i → inside p o i ≡ 0)
    → (s.mem_map p).order ≡ pos o
    → IsAligned s o p
    → AreTrue s lists p o
    → After s lists nothing (inside p o) (coalesce n s p o)
unfolding coalesce
coalesce-After zero o p {s} {lists} b h new fits ord al truth =
    list_add-After b o p (omega (arith, h)) new fits ord al
coalesce-After (suc n) o p {s} {lists} b h new fits ord al truth =
    elim (Option-cases (find_buddy s p o)) [
      | inl alone ↦ rw (alone, coalesce) (list_add-After b o p (omega (arith, h)) new fits ord al)
      | inr (q, found) ↦ elim (Bool-cases (is_free_block (s.mem_map q) o)) [
        | inr busy ↦
            rw (found, busy, coalesce) (list_add-After b o p (omega (arith, h)) new fits ord al)
        | inl marked ↦
            rw (found, marked, coalesce)
              (joined q found marked (
                coalesce-After n (suc o) (low q) (step q found marked).ok (omega (arith, h))
                  (λ i. omega (
                    arith,
                    (step q found marked).moved i,
                    new i,
                    pair-inside s o p q (low q) i (pair q found),
                    b.apart i,
                  ))
                  (λ i k. beyond q found marked i k) (step q found marked).low_order
                  (IsAligned-same s (merge s o q (low q)) (suc o) (low q)
                    (step q found marked).start (pair q found).aligned)
                  (step q found marked).truth))
      ]
    ]
  where
    low : ℕ → ℕ
    low q = if ltb q p then q else p

    pair : (q : ℕ) → find_buddy s p o ≡ some q → ArePair s o p q (low q)
    pair q found = find_buddy-ArePair s o p q al found

    step :
        (q : ℕ)
        → find_buddy s p o ≡ some q
        → is_free_block (s.mem_map q) o ≡ true
        → Merged s lists o p q (low q) (merge s o q (low q))
    step q found marked =
        merge-Merged b o p q (low q) (omega (arith, h)) (omega (arith, new p, inside_self p o))
          (pair q found)
          (truth o p q (omega arith) (omega (arith, h)) al (omega arith) (omega arith) found marked)
          truth

    beyond :
        (q : ℕ) (found : find_buddy s p o ≡ some q) (marked : is_free_block (s.mem_map q) o ≡ true)
        (i : ℕ)
        → managed (merge s o q (low q)) ≤ i
        → inside (low q) (suc o) i ≡ 0
    beyond q found marked i k = omega (
      arith,
      pair-inside s o p q (low q) i (pair q found),
      (step q found marked).moved i,
      fits i (inner k),
      b.within i (inner k),
    )
      where
        inner : managed (merge s o q (low q)) ≤ i → managed s ≤ i
        inner k = omega (arith, k, (step q found marked).start, (step q found marked).end_)

    joined :
        (q : ℕ) (found : find_buddy s p o ≡ some q) (marked : is_free_block (s.mem_map q) o ≡ true)
        {s' : Buddy}
        → After
            (merge s o q (low q))
            (step q found marked).lists'
            nothing
            (inside (low q) (suc o))
            s'
        → After s lists nothing (inside p o) s'
    joined q found marked rest = record {
      lists' = rest.lists';
      ok = rest.ok;
      moved = λ i. omega (
        arith,
        rest.moved i,
        (step q found marked).moved i,
        pair-inside s o p q (low q) i (pair q found),
      );
      start = rest.start ∙ (step q found marked).start;
      end_ = rest.end_ ∙ (step q found marked).end_;
      free = rest.free ∙ (step q found marked).free;
    }

-- A block that `alloc_pages` gave out: its page has the mark of a head, its order and one reference; its
-- pages are managed and in no free list; and no stale mark misleads the merging.
pub record IsUsed (s : Buddy) (lists : ℕ → List ℕ) (order page : ℕ) : Type 0 where
  pub head : (bit_and (s.mem_map page).flags 8 == 0) ≡ false
  pub refs : (s.mem_map page).ref_count ≡ 1
  pub order_field : (s.mem_map page).order ≡ pos order
  pub small : order ≤ max_order
  pub new : (i : ℕ) → free_in lists i + inside page order i ≤ 1
  pub fits : (i : ℕ) → managed s ≤ i → inside page order i ≡ 0
  pub aligned : IsAligned s order page
  pub truth : AreTrue s lists page order

-- The block's pages are free again, in lists that are blocks, and are counted.
pub record Freed (s : Buddy) (lists : ℕ → List ℕ) (order page : ℕ) (s' : Buddy) : Type 0 where
  pub lists' : ℕ → List ℕ
  pub ok : IsBuddy s' lists'
  pub added : (i : ℕ) → free_in lists' i ≡ free_in lists i + inside page order i
  pub count : s'.free_page_count ≡ (s.free_page_count + 2 ^ order) % u64_mod

-- `release` of a page that has `refs` references left.
module _ {s : Buddy} {lists : ℕ → List ℕ} (b : IsBuddy s lists) (order page refs : ℕ)
    (used : IsUsed s lists order page) where
  counted : Buddy
  counted = set_page s page (record (s.mem_map page) { ref_count = refs })

  -- The state in which the merging begins.
  flagged : Buddy
  unfolding counted
  flagged =
      let s' = set_page counted page (record (counted.mem_map page) { flags = 9 }) in
      record s' { free_page_count = (s'.free_page_count + 2 ^ order) % u64_mod }

  flagged-IsBuddy : IsBuddy flagged lists
  unfolding counted flagged
  flagged-IsBuddy =
      IsBuddy-frame b refl refl (λ o. refl) (λ q. (ground arith, ground arith))
        (λ q i. ground arith)

  flagged-other : (k : ℕ) → k ≢ page → flagged.mem_map k ≡ s.mem_map k
  unfolding counted flagged
  flagged-other k ne = ground arith

  flagged-truth : AreTrue flagged lists page order
  unfolding counted flagged
  flagged-truth m q k le top al below above found marked =
      used.truth m q k le top (IsAligned-same flagged s m q refl al) below above
        (sym (find_buddy-same s flagged q m refl refl) ∙ found)
        (ap (λ (a : Page). is_free_block a m) (sym (flagged-other k apart)) ∙ marked)
    where
      apart : k ≢ page
      apart z = elim (find_buddy-ArePair flagged m q k al found).order [
        | inl (e, f) ↦ omega (arith, below, above, f, z, pow-positive order)
        | inr (e, f) ↦ omega (arith, below, above, f, z, pow-positive m)
      ]

  release-Freed : Freed s lists order page (release counted page order)
  unfolding release counted flagged
  release-Freed = record {
    lists' = done.lists';
    ok = done.ok;
    added = λ i. omega (arith, done.moved i);
    count = done.free;
  }
    where
      done :
          After flagged lists nothing
            (inside page order)
            (coalesce (max_order - order) flagged page order)
      done =
          coalesce-After (max_order - order) order page flagged-IsBuddy (omega (arith, used.small))
            used.new used.fits (ground (arith, used.order_field))
            (IsAligned-same s flagged order page refl used.aligned) flagged-truth

pfn_to_page-page :
    (s : Buddy) (page : ℕ) → page < managed s → pfn_to_page s (page_to_pfn s page) ≡ some page
unfolding pfn_to_page
pfn_to_page-page s page h = ground (arith, h)

-- Where every free list is a list of blocks, `page` has the mark of a head, the order `order`, 11 at most, and one
-- reference, its block is aligned, managed and in no free list, it is not frame 0, its address fits in 64
-- bits, and each buddy that is marked free at the order of a block around it is in the list of that order:
-- `free_pages` of the block's address makes exactly its pages free, with the lists again lists of aligned
-- blocks that do not overlap, merged or not, and adds their number to the count of free pages, modulo 2 ^ 64.
pub free_pages-Freed :
    {s : Buddy} {lists : ℕ → List ℕ}
    → IsBuddy s lists
    → (order page : ℕ) → IsUsed s lists order page
    → 0 < page_to_pfn s page
    → page_to_pfn s page * page_size < u64_mod
    → Freed s lists order page (free_pages s (page_to_phys s page) (pos order))
unfolding free_pages drop_ref counted
free_pages-Freed {s} {lists} b order page used nonzero wide =
    rw (some_address, found, used.head)
      (subst
        (λ n. Freed s lists order page (
          if n == 0
          then release s page order
          else (let s' = set_page s page (record (s.mem_map page) { ref_count = n - 1 }) in
              if n == 1 then release s' page order else s')))
        (sym used.refs) (release-Freed b order page 0 used))
  where
    some_address : (page_to_phys s page == 0 || ltb max_order order) ≡ false
    some_address = ground (arith, nonzero, wide, used.small)

    managed_page : page < managed s
    managed_page = elim (Bool-cases (ltb page (managed s))) [
      | inl in_range ↦ ground (arith, in_range)
      | inr beyond ↦
          absurd (omega (arith, used.fits page (ground (arith, beyond)), inside_self page order))
    ]

    found : pfn_to_page s (phys_to_pfn (page_to_phys s page)) ≡ some page
    found = ap (pfn_to_page s) frame ∙ in_range
      where
        frame : phys_to_pfn (page_to_phys s page) ≡ page_to_pfn s page
        frame = omega (arith, wide)

        in_range : pfn_to_page s (page_to_pfn s page) ≡ some page
        in_range = pfn_to_page-page s page managed_page
