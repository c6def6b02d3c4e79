-- ===== src/Mm/Buddy/Blocks.antt =====
-- What one step of arch/riscv64/mm/page_alloc.c does to the blocks of the free lists.
use native.Mathlib.Decide.{ℕ_discrete}
use minix_rv.Prelude.{ℕ, suc, ◌+◌, ◌≤◌, ◌<◌, ◌≡◌, refl, ap, List, ◌∷◌, pos, arith, occurs, remove}
use minix_rv.Fs.Base.{update}
use minix_rv.Mm.Buddy.{Buddy, max_order, list_add, list_del, mark}
use minix_rv.Mm.Buddy.Effect.{next_of, prev_of, Added, Deleted}
use minix_rv.Mm.Buddy.Cover.{inside, inside_self, cover_list-remove, cover-update}
use minix_rv.Mm.Buddy.Invariant.{IsBuddy, IsAligned, IsArea-frame, managed, free_in, occurs-le-free}
use minix_rv.Mm.Buddy.Areas.{new-Added, old-Deleted, list_add-IsArea, list_del-IsArea}

-- From `s` to `s'` the free pages `lost` become used and the pages `gained` become free, in lists that are
-- blocks again.
pub record After (s : Buddy) (lists : ℕ → List ℕ) (lost gained : ℕ → ℕ) (s' : Buddy) : Type 0 where
  pub lists' : ℕ → List ℕ
  pub ok : IsBuddy s' lists'
  pub moved : (i : ℕ) → free_in lists' i + lost i ≡ free_in lists i + gained i
  pub start : s'.start_pfn ≡ s.start_pfn
  pub end_ : s'.end_pfn ≡ s.end_pfn
  pub free : s'.free_page_count ≡ s.free_page_count

abbrev pub nothing : ℕ → ℕ
nothing i = 0

pub free_in-add :
    (lists : ℕ → List ℕ) (o p i : ℕ)
    → o ≤ max_order
    → free_in (update lists o (p ∷ lists o)) i ≡ free_in lists i + inside p o i
unfolding free_in
free_in-add lists o p i h =
    omega (arith, cover-update lists (suc max_order) o (p ∷ lists o) i (omega (arith, h)))

pub free_in-remove :
    (lists : ℕ → List ℕ) (o p i : ℕ)
    → o ≤ max_order
    → 0 < occurs p (lists o)
    → free_in (update lists o (remove p (lists o))) i + inside p o i ≡ free_in lists i
unfolding free_in
free_in-remove lists o p i h j = omega (
  arith,
  cover-update lists (suc max_order) o (remove p (lists o)) i (omega (arith, h)),
  cover_list-remove p o (lists o) i j,
)

pub list_add-After :
    {s : Buddy} {lists : ℕ → List ℕ} (b : IsBuddy s lists) (o p : ℕ)
    → o ≤ max_order
    → ((i : ℕ) → free_in lists i + inside p o i ≤ 1)
    → ((i : ℕ) → managed s ≤ i → inside p o i ≡ 0)
    → (s.mem_map p).order ≡ pos o
    → IsAligned s o p
    → After s lists nothing (inside p o) (list_add s o p)
list_add-After {s} {lists} b o p h new fits ord al = record {
  lists' = update lists o (p ∷ lists o);
  ok = record {
    area = list_add-IsArea b o p h fresh ord al;
    apart = λ i. omega (arith, free_in-add lists o p i h, new i);
    within = λ i k. omega (
      arith,
      free_in-add lists o p i h,
      fits i (omega (arith, k, change.marks.start, change.marks.end_)),
      b.within i (omega (arith, k, change.marks.start, change.marks.end_)),
    );
  };
  moved = λ i. omega (arith, free_in-add lists o p i h);
  start = change.marks.start;
  end_ = change.marks.end_;
  free = change.marks.free;
}
  where
    fresh : free_in lists p ≡ 0
    fresh = omega (arith, new p, inside_self p o)

    change : Added s o p (list_add s o p)
    change = new-Added b o p h fresh ord al

pub list_del-IsBuddy :
    {s : Buddy} {lists : ℕ → List ℕ} (b : IsBuddy s lists) (o p : ℕ)
    → o ≤ max_order
    → 0 < occurs p (lists o)
    → IsBuddy (list_del s o p) (update lists o (remove p (lists o)))
list_del-IsBuddy {s} {lists} b o p h j = record {
  area = list_del-IsArea b o p h j;
  apart = λ i. omega (arith, free_in-remove lists o p i h j, b.apart i);
  within = λ i k. omega (
    arith,
    free_in-remove lists o p i h j,
    b.within i (omega (arith, k, change.marks.start, change.marks.end_)),
  );
}
  where
    change : Deleted s o p (list_del s o p)
    change = old-Deleted b o p h j

pub list_del-After :
    {s : Buddy} {lists : ℕ → List ℕ} (b : IsBuddy s lists) (o p : ℕ)
    → o ≤ max_order
    → 0 < occurs p (lists o)
    → After s lists (inside p o) nothing (list_del s o p)
list_del-After {s} {lists} b o p h j = record {
  lists' = update lists o (remove p (lists o));
  ok = list_del-IsBuddy b o p h j;
  moved = λ i. omega (arith, free_in-remove lists o p i h j);
  start = change.marks.start;
  end_ = change.marks.end_;
  free = change.marks.free;
}
  where
    change : Deleted s o p (list_del s o p)
    change = old-Deleted b o p h j

-- The pages that are not free may be marked in any way, and the pages be counted.
pub IsBuddy-frame :
    {s s' : Buddy} {lists : ℕ → List ℕ} (b : IsBuddy s lists)
    → s'.start_pfn ≡ s.start_pfn
    → s'.end_pfn ≡ s.end_pfn
    → ((o : ℕ) → s'.free_area o ≡ s.free_area o)
    → ((q : ℕ) → (next_of s' q ≡ next_of s q) × (prev_of s' q ≡ prev_of s q))
    → ((q : ℕ) → 0 < free_in lists q → (s'.mem_map q).order ≡ (s.mem_map q).order)
    → IsBuddy s' lists
IsBuddy-frame {s} {s'} {lists} b same_start same_end areas links orders = record {
  area = λ o h.
      IsArea-frame (b.area o h) same_start (areas o)
        (λ q i. orders q (omega (arith, i, occurs-le-free b o q h))) (λ q i. links q);
  apart = b.apart;
  within = λ i k. b.within i (omega (arith, k, same_start, same_end));
}

pub mark-IsBuddy :
    {s : Buddy} {lists : ℕ → List ℕ} (b : IsBuddy s lists) (p flags order refs count : ℕ)
    → free_in lists p ≡ 0
    → IsBuddy (record (mark s p flags order refs) { free_page_count = count }) lists
mark-IsBuddy {s} {lists} b p flags order refs count new =
    IsBuddy-frame b refl refl (λ o. refl) (λ q. (ground arith, ground arith)) other_order
  where
    other_order :
        (q : ℕ)
        → 0 < free_in lists q
        → ((mark s p flags order refs).mem_map q).order ≡ (s.mem_map q).order
    other_order q i = elim (ℕ_discrete p q) [
      | yes same ↦ absurd (omega (arith, i, new, ap (free_in lists) same))
      | no ne ↦ ground arith
    ]
