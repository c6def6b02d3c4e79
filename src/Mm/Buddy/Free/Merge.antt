-- ===== src/Mm/Buddy/Free/Merge.antt =====
-- One round of `free_pages` of arch/riscv64/mm/page_alloc.c: a block is merged with its buddy.
use mathlib.Core.Path.{subst}
use native.Mathlib.Nat.{pow-suc}
use minix_rv.Prelude.{
  ℕ, suc, ◌+◌, ◌^◌, ◌≤◌, ◌<◌, ◌≡◌, ◌≢◌, refl, sym, ap, ◌∙◌, inl, inr, List, true, some, pos, negsuc,
  arith, occurs, remove,
}
use minix_rv.Fs.Base.{update}
use minix_rv.Mm.Buddy.{
  Buddy, Page, pfn_to_page, max_order, set_page, list_del, find_buddy, is_free_block,
}
use minix_rv.Mm.Buddy.Effect.{Deleted}
use minix_rv.Mm.Buddy.Cover.{inside, inside-halves, inside_self, pow-positive}
use minix_rv.Mm.Buddy.Invariant.{IsBuddy, IsAligned, IsAligned-same, free_in}
use minix_rv.Mm.Buddy.Areas.{old-Deleted}
use minix_rv.Mm.Buddy.Blocks.{list_del-IsBuddy, free_in-remove, IsBuddy-frame}
use minix_rv.Mm.Buddy.Pair.{ArePair, find_buddy-ArePair}

-- No stale mark misleads the merging of the block of order `o` at `p`: where a block around it has a buddy that is
-- marked free at the same order, that buddy is in the free list of the order.
abbrev pub AreTrue : Buddy → (ℕ → List ℕ) → ℕ → ℕ → Type 0
AreTrue s lists p o =
    (m q b : ℕ)
    → o ≤ m
    → m ≤ max_order
    → IsAligned s m q
    → q ≤ p
    → p + 2 ^ o ≤ q + 2 ^ m
    → find_buddy s q m ≡ some b
    → is_free_block (s.mem_map b) m ≡ true
    → 0 < occurs b (lists m)

-- A buddy is taken off its list and merged.
abbrev pub merge : Buddy → ℕ → ℕ → ℕ → Buddy
merge s o buddy low =
    let s1 = list_del s o buddy in
    let s2 = set_page s1 buddy (record (s1.mem_map buddy) { flags = 0; order = negsuc 0 }) in
    set_page s2 low (record (s2.mem_map low) { order = pos (suc o) })

pub is_free_block-same :
    (a b : Page) (o : ℕ)
    → a.flags ≡ b.flags
    → a.order ≡ b.order
    → is_free_block a o ≡ is_free_block b o
unfolding is_free_block
is_free_block-same a b o e f = rw (e, f) refl

pub find_buddy-same :
    (s s' : Buddy) (p o : ℕ)
    → s'.start_pfn ≡ s.start_pfn
    → s'.end_pfn ≡ s.end_pfn
    → find_buddy s' p o ≡ find_buddy s p o
unfolding find_buddy pfn_to_page
find_buddy-same s s' p o e f = rw (e, f) refl

pub record Merged (s : Buddy) (lists : ℕ → List ℕ) (o p q low : ℕ) (s' : Buddy) : Type 0 where
  pub lists' : ℕ → List ℕ
  pub ok : IsBuddy s' lists'
  pub moved : (i : ℕ) → free_in lists' i + inside q o i ≡ free_in lists i
  pub start : s'.start_pfn ≡ s.start_pfn
  pub end_ : s'.end_pfn ≡ s.end_pfn
  pub free : s'.free_page_count ≡ s.free_page_count
  pub low_order : (s'.mem_map low).order ≡ pos (suc o)
  pub truth : AreTrue s' lists' low (suc o)

-- The merged block has the pages of both.
pub pair-inside :
    (s : Buddy) (o p q low i : ℕ)
    → ArePair s o p q low
    → inside low (suc o) i ≡ inside p o i + inside q o i
pair-inside s o p q low i pair = elim pair.order [
  | inl (e, f) ↦
      ap (λ k. inside k (suc o) i) e
      ∙ inside-halves p o i
      ∙ ap (λ k. inside p o i + inside k o i) (sym f)
  | inr (e, f) ↦
      ap (λ k. inside k (suc o) i) e ∙ inside-halves q o i ∙ omega (arith, ap (λ k. inside k o i) f)
]

merge-other :
    (s : Buddy) (o q low k : ℕ)
    → k ≢ q
    → k ≢ low
    → (merge s o q low).mem_map k ≡ (list_del s o q).mem_map k
merge-other s o q low k ne other = ground arith

pub merge-Merged :
    {s : Buddy} {lists : ℕ → List ℕ} (b : IsBuddy s lists) (o p q low : ℕ)
    → suc o ≤ max_order
    → free_in lists p ≡ 0
    → ArePair s o p q low
    → 0 < occurs q (lists o)
    → AreTrue s lists p o
    → Merged s lists o p q low (merge s o q low)
merge-Merged {s} {lists} b o p q low h new pair mem truth = record {
  lists' = update lists o (remove q (lists o));
  ok =
      IsBuddy-frame (list_del-IsBuddy b o q (omega (arith, h)) mem) refl refl (λ k. refl)
        (λ k. (ground arith, ground arith))
        (λ k i.
          ap (λ (a : Page). a.order)
            (merge-other s o q low k (λ z. used_q k i z) (λ z. used_low k i z)));
  moved = moved;
  start = change.marks.start;
  end_ = change.marks.end_;
  free = change.marks.free;
  low_order = ground arith;
  truth = λ m r k le top al below above found marked.
      subst (λ (l : List ℕ). 0 < occurs k l) (sym (same_list m le))
        (truth m r k (omega (arith, le)) top
          (IsAligned-same (merge s o q low) s m r (sym change.marks.start) al)
          (wide r m below above).0 (wide r m below above).1
          (sym (find_buddy-same s (merge s o q low) r m change.marks.start change.marks.end_)
            ∙ found)
          (sym (same_mark m r k al below above found) ∙ marked));
}
  where
    change : Deleted s o q (list_del s o q)
    change = old-Deleted b o q (omega (arith, h)) mem

    moved :
        (i : ℕ) → free_in (update lists o (remove q (lists o))) i + inside q o i ≡ free_in lists i
    moved i = free_in-remove lists o q i (omega (arith, h)) mem

    used_q : (k : ℕ) → 0 < free_in (update lists o (remove q (lists o))) k → k ≢ q
    used_q k i z = omega (
      arith,
      i,
      moved q,
      b.apart q,
      inside_self q o,
      ap (free_in (update lists o (remove q (lists o)))) z,
    )

    used_p : (k : ℕ) → 0 < free_in (update lists o (remove q (lists o))) k → k ≢ p
    used_p k i z =
        omega (arith, i, moved p, new, ap (free_in (update lists o (remove q (lists o)))) z)

    used_low : (k : ℕ) → 0 < free_in (update lists o (remove q (lists o))) k → k ≢ low
    used_low k i z = elim pair.order [
      | inl (e, f) ↦ used_p k i (z ∙ e)
      | inr (e, f) ↦ used_q k i (z ∙ e)
    ]

    same_list : (m : ℕ) → suc o ≤ m → update lists o (remove q (lists o)) m ≡ lists m
    same_list m le = ground (arith, le)

    wide : (r m : ℕ) → r ≤ low → low + 2 ^ suc o ≤ r + 2 ^ m → (r ≤ p) × (p + 2 ^ o ≤ r + 2 ^ m)
    wide r m below above = elim pair.order [
      | inl (e, f) ↦ (omega (arith, below, e), omega (arith, above, e, pow-suc 2 o))
      | inr (e, f) ↦ (omega (arith, below, e, f), omega (arith, above, e, f, pow-suc 2 o))
    ]

    within : (r m : ℕ) → r ≤ low → low + 2 ^ suc o ≤ r + 2 ^ m → (r ≤ q) × (q < r + 2 ^ m)
    within r m below above = elim pair.order [
      | inl (e, f) ↦
          (omega (arith, below, e, f), omega (arith, above, e, f, pow-suc 2 o, pow-positive o))
      | inr (e, f) ↦ (omega (arith, below, e), omega (arith, above, e, pow-suc 2 o, pow-positive o))
    ]

    same_mark :
        (m r k : ℕ)
        → IsAligned (merge s o q low) m r
        → r ≤ low
        → low + 2 ^ suc o ≤ r + 2 ^ m
        → find_buddy (merge s o q low) r m ≡ some k
        → is_free_block ((merge s o q low).mem_map k) m ≡ is_free_block (s.mem_map k) m
    same_mark m r k al below above found =
        is_free_block-same ((merge s o q low).mem_map k) (s.mem_map k) m
          (ap (λ (a : Page). a.flags) untouched ∙ change.marks.flags k)
          (ap (λ (a : Page). a.order) untouched ∙ change.marks.order k)
      where
        outside : (x : ℕ) → r ≤ x → x < r + 2 ^ m → k ≢ x
        outside x h1 h2 z = elim (find_buddy-ArePair (merge s o q low) m r k al found).order [
          | inl (e, f) ↦ omega (arith, h1, h2, f, z)
          | inr (e, f) ↦ omega (arith, h1, h2, f, z, pow-positive m)
        ]

        untouched : (merge s o q low).mem_map k ≡ (list_del s o q).mem_map k
        untouched =
            merge-other s o q low k
              (outside q (within r m below above).0 (within r m below above).1)
              (outside low below (omega (arith, above, pow-positive (suc o))))
