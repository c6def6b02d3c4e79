-- ===== src/Mm/Buddy/Invariant.antt =====
-- The free lists of arch/riscv64/mm/page_alloc.c as lists of blocks, and how `list_add` and `list_del` change them.
use mathlib.Core.Path.{subst}
use minix_rv.Prelude.{
  ℕ, suc, ◌+◌, ◌-◌, ◌*◌, ◌^◌, ◌%◌, ◌≤◌, ◌<◌, ◌≡◌, ◌≢◌, sym, ap, ◌∙◌, List, none, some, pos, arith,
  length, occurs,
}
use minix_rv.Mm.Buddy.{Buddy, FreeArea, page_to_pfn, u64_mod, sub64, max_order}
use minix_rv.Mm.Buddy.Links.{Links, Links-frame, next-mem, prev-mem, head-mem, back_of_head}
use minix_rv.Mm.Buddy.Effect.{next_of, prev_of}
use minix_rv.Mm.Buddy.Cover.{cover, occurs-le-cover_list, cover_list-le-cover, cover_two}

-- The number of pages that are managed.
abbrev pub managed : Buddy → ℕ
managed s = s.end_pfn - s.start_pfn

-- The page begins a block of order `o`: its frame number is a multiple of the block's size.
pub record IsAligned (s : Buddy) (o p : ℕ) : Type 0 where
  pub quotient : ℕ
  pub multiple : page_to_pfn s p ≡ quotient * 2 ^ o

-- The free list of order `o` is the list `l`: its links, its length, and each page's order and alignment.
pub record IsArea (s : Buddy) (o : ℕ) (l : List ℕ) : Type 0 where
  pub links : Links (next_of s) (prev_of s) none l (s.free_area o).free_list
  pub count : (s.free_area o).nr_free ≡ length l % u64_mod
  pub orders : (p : ℕ) → 0 < occurs p l → (s.mem_map p).order ≡ pos o
  pub aligned : (p : ℕ) → 0 < occurs p l → IsAligned s o p

-- In how many blocks of the free lists the page `i` is.
unfoldable pub free_in : (ℕ → List ℕ) → ℕ → ℕ
free_in lists i = cover lists (suc max_order) i

-- Every free list is a list of blocks; no page is in two blocks, and each block is within the managed pages.
pub record IsBuddy (s : Buddy) (lists : ℕ → List ℕ) : Type 0 where
  pub area : (o : ℕ) → o ≤ max_order → IsArea s o (lists o)
  pub apart : (i : ℕ) → free_in lists i ≤ 1
  pub within : (i : ℕ) → managed s ≤ i → free_in lists i ≡ 0

pub length-mod : (n : ℕ) → (n % u64_mod + 1) % u64_mod ≡ suc n % u64_mod
length-mod n = omega arith

pub length-sub : (n : ℕ) → sub64 ((n + 1) % u64_mod) 1 ≡ n % u64_mod
length-sub n = omega arith

pub IsAligned-same :
    (s s' : Buddy) (o p : ℕ) → s'.start_pfn ≡ s.start_pfn → IsAligned s o p → IsAligned s' o p
IsAligned-same s s' o p same a = record {
  quotient = a.quotient;
  multiple = ap (λ n. p + n) same ∙ a.multiple;
}

-- A list survives what spares its own pages and its head.
pub IsArea-frame :
    {s s' : Buddy} {o : ℕ} {l : List ℕ}
    → IsArea s o l
    → s'.start_pfn ≡ s.start_pfn
    → s'.free_area o ≡ s.free_area o
    → ((q : ℕ) → 0 < occurs q l → (s'.mem_map q).order ≡ (s.mem_map q).order)
    → ((q : ℕ) → 0 < occurs q l → (next_of s' q ≡ next_of s q) × (prev_of s' q ≡ prev_of s q))
    → IsArea s' o l
IsArea-frame {s} {s'} {o} {l} ok same kept orders links = record {
  links =
      subst (Links (next_of s') (prev_of s') none l) (sym (ap (λ (a : FreeArea). a.free_list) kept))
        (Links-frame (next_of s) (prev_of s) (next_of s') (prev_of s') none l
          (s.free_area o).free_list links ok.links);
  count = ap (λ (a : FreeArea). a.nr_free) kept ∙ ok.count;
  orders = λ p i. orders p i ∙ ok.orders p i;
  aligned = λ p i. IsAligned-same s s' o p same (ok.aligned p i);
}

module _ {s : Buddy} {lists : ℕ → List ℕ} (b : IsBuddy s lists) where
  pub occurs-le-free : (o p : ℕ) → o ≤ max_order → occurs p (lists o) ≤ free_in lists p
  unfolding free_in
  occurs-le-free o p h = omega (
    arith,
    occurs-le-cover_list p o (lists o),
    cover_list-le-cover lists (suc max_order) o p (omega (arith, h)),
  )

  pub once : (o p : ℕ) → o ≤ max_order → occurs p (lists o) ≤ 1
  once o p h = omega (arith, occurs-le-free o p h, b.apart p)

  -- A page is in one list at most.
  pub elsewhere :
      (o o' p : ℕ)
      → o ≤ max_order
      → o' ≤ max_order
      → o ≢ o'
      → 0 < occurs p (lists o)
      → occurs p (lists o') ≡ 0
  unfolding free_in
  elsewhere o o' p h h' ne i = omega (
    arith,
    i,
    b.apart p,
    occurs-le-cover_list p o (lists o),
    occurs-le-cover_list p o' (lists o'),
    cover_two lists (suc max_order) o o' p (omega (arith, h)) (omega (arith, h')) ne,
  )

  -- The page before or behind a page of a list is in the list.
  pub next-in :
      (o p q : ℕ)
      → o ≤ max_order
      → 0 < occurs p (lists o)
      → next_of s p ≡ some q
      → 0 < occurs q (lists o)
  next-in o p q h i e =
      next-mem (next_of s) (prev_of s) p none (lists o) (s.free_area o).free_list q
        (b.area o h).links i e

  pub prev-in :
      (o p q : ℕ)
      → o ≤ max_order
      → 0 < occurs p (lists o)
      → prev_of s p ≡ some q
      → 0 < occurs q (lists o)
  prev-in o p q h i e =
      prev-mem (next_of s) (prev_of s) p none (lists o) (s.free_area o).free_list q
        (b.area o h).links i
        (λ z. cc (
          back_of_head (next_of s) (prev_of s) p none (lists o) (s.free_area o).free_list
              (b.area o h).links z,
          e,
        ))
        e

  pub head-in :
      (o q : ℕ) → o ≤ max_order → (s.free_area o).free_list ≡ some q → 0 < occurs q (lists o)
  head-in o q h e =
      head-mem (next_of s) (prev_of s) q none (lists o) (s.free_area o).free_list (b.area o h).links
        e
