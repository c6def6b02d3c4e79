-- ===== src/Mm/Buddy/Areas.antt =====
-- The free lists of arch/riscv64/mm/page_alloc.c after `list_add` and after `list_del`.
use mathlib.Core.Path.{subst}
use native.Mathlib.Decide.{ℕ_discrete}
use minix_rv.Prelude.{
  ℕ, ◌+◌, ◌%◌, ◌≤◌, ◌<◌, ◌≡◌, ◌≢◌, refl, sym, ap, ◌∙◌, inl, inr, List, ◌∷◌, none, pos, arith,
  Option-cases, length, occurs, remove, length-remove, occurs-remove_ne,
}
use minix_rv.Fs.Base.{update}
use minix_rv.Mm.Buddy.{Buddy, u64_mod, sub64, max_order, list_add, list_del}
use minix_rv.Mm.Buddy.Links.{
  Links, Links-push, next_ne_self, prev_ne_self, head_of_back, back_of_head, head_without,
  head_without-eq, head_without-other,
}
use minix_rv.Mm.Buddy.Unlink.{Links-remove}
use minix_rv.Mm.Buddy.Effect.{next_of, prev_of, Added, Deleted, list_add-Added, list_del-Deleted}
use minix_rv.Mm.Buddy.Invariant.{
  IsArea, IsBuddy, IsAligned, IsAligned-same, IsArea-frame, free_in, occurs-le-free, once,
  elsewhere, next-in, prev-in, head-in, length-mod, length-sub,
}

module _ {s : Buddy} {lists : ℕ → List ℕ} (b : IsBuddy s lists) where
  -- `list_add` of a block of pages that are not free.
  module _ (o p : ℕ) (h : o ≤ max_order) (new : free_in lists p ≡ 0)
      (ord : (s.mem_map p).order ≡ pos o) (al : IsAligned s o p) where
    new-out : (o' : ℕ) → o' ≤ max_order → occurs p (lists o') ≡ 0
    new-out o' h' = omega (arith, occurs-le-free b o' p h', new)

    pub new-Added : Added s o p (list_add s o p)
    new-Added = list_add-Added s o p (λ e. omega (arith, head-in b o p h e, new-out o h))

    grown-IsArea : IsArea (list_add s o p) o (p ∷ lists o)
    grown-IsArea = record {
      links =
          subst (Links (next_of (list_add s o p)) (prev_of (list_add s o p)) none (p ∷ lists o))
            (sym new-Added.head)
            (Links-push (next_of s) (prev_of s) (next_of (list_add s o p))
              (prev_of (list_add s o p)) p (lists o) (s.free_area o).free_list (new-out o h)
              (λ q. once b o q h) new-Added.next_page new-Added.prev_page new-Added.next_kept
              new-Added.prev_head new-Added.prev_kept (b.area o h).links);
      count =
          new-Added.count
          ∙ ap (λ n. (n + 1) % u64_mod) (b.area o h).count
          ∙ length-mod (length (lists o));
      orders = λ q i. elim (ℕ_discrete p q) [
        | yes same ↦ new-Added.marks.order q ∙ ap (λ r. (s.mem_map r).order) (sym same) ∙ ord
        | no ne ↦ new-Added.marks.order q ∙ (b.area o h).orders q (ground arith)
      ];
      aligned = λ q i.
          IsAligned-same s (list_add s o p) o q new-Added.marks.start (elim (ℕ_discrete p q) [
            | yes same ↦ subst (IsAligned s o) same al
            | no ne ↦ (b.area o h).aligned q (ground arith)
          ]);
    }

    pub list_add-IsArea :
        (o' : ℕ) → o' ≤ max_order → IsArea (list_add s o p) o' (update lists o (p ∷ lists o) o')
    list_add-IsArea o' h' = elim (ℕ_discrete o o') [
      | yes same ↦
          subst (λ k. IsArea (list_add s o p) k (update lists o (p ∷ lists o) k)) same
            (subst (IsArea (list_add s o p) o) (sym here) grown-IsArea)
      | no ne ↦ subst (IsArea (list_add s o p) o') (sym (there ne)) (
          IsArea-frame (b.area o' h') new-Added.marks.start (new-Added.others o' (λ z. ne (sym z)))
            (λ q i. new-Added.marks.order q)
            (λ q i. (
              new-Added.next_kept q (λ z. absent q i z),
              new-Added.prev_kept q (λ z. absent q i z)
                  (λ e. omega (arith, i, elsewhere b o o' q h h' ne (head-in b o q h e))),
            )))
    ]
      where
        here : update lists o (p ∷ lists o) o ≡ p ∷ lists o
        here = ground arith

        there : o ≢ o' → update lists o (p ∷ lists o) o' ≡ lists o'
        there ne = ground arith

        absent : (q : ℕ) → 0 < occurs q (lists o') → q ≢ p
        absent q i z = omega (arith, i, new-out o' h', ap (λ k. occurs k (lists o')) z)

  -- `list_del` of a block of the list.
  module _ (o p : ℕ) (h : o ≤ max_order) (i : 0 < occurs p (lists o)) where
    pub old-Deleted : Deleted s o p (list_del s o p)
    old-Deleted =
        list_del-Deleted s o p
          (prev_ne_self (next_of s) (prev_of s) p none (lists o) (s.free_area o).free_list (λ e. cc)
            (b.area o h).links i)
          (next_ne_self (next_of s) (prev_of s) p none (lists o) (s.free_area o).free_list
            (λ q. once b o q h) (b.area o h).links i)

    -- The head of the list afterwards.
    head_after :
        ((list_del s o p).free_area o).free_list
        ≡ head_without (next_of s) (prev_of s) p (s.free_area o).free_list
    head_after = elim (Option-cases (prev_of s p)) [
      | inl first ↦
          old-Deleted.head_first first
          ∙ sym (
              head_without-eq (next_of s) (prev_of s) p (s.free_area o).free_list p
                (head_of_back (next_of s) (prev_of s) p (lists o) (s.free_area o).free_list
                  (b.area o h).links i first)
                refl)
      | inr (q, before) ↦
          old-Deleted.head_kept q before
          ∙ sym (
              head_without-other (next_of s) (prev_of s) p (s.free_area o).free_list (λ z. cc (
                back_of_head (next_of s) (prev_of s) p none (lists o) (s.free_area o).free_list
                    (b.area o h).links z,
                before,
              )))
    ]

    kept : (q : ℕ) → 0 < occurs q (remove p (lists o)) → 0 < occurs q (lists o)
    kept q j = elim (ℕ_discrete p q) [
      | yes same ↦ subst (λ k. 0 < occurs k (lists o)) same i
      | no ne ↦ omega (arith, j, occurs-remove_ne p q (lists o) ne)
    ]

    shrunk-IsArea : IsArea (list_del s o p) o (remove p (lists o))
    shrunk-IsArea = record {
      links =
          subst
            (Links (next_of (list_del s o p)) (prev_of (list_del s o p)) none (remove p (lists o)))
            (sym head_after)
            (Links-remove (next_of s) (prev_of s) p (next_of (list_del s o p))
              (prev_of (list_del s o p)) old-Deleted.next_before old-Deleted.next_kept
              old-Deleted.prev_after old-Deleted.prev_kept none (lists o) (s.free_area o).free_list
              (λ q. once b o q h) (λ q e. absurd (cc)) (b.area o h).links i);
      count =
          old-Deleted.count
          ∙ ap (λ n. sub64 n 1)
              ((b.area o h).count ∙ ap (λ n. n % u64_mod) (sym (length-remove p (lists o) i)))
          ∙ length-sub (length (remove p (lists o)));
      orders = λ q j. old-Deleted.marks.order q ∙ (b.area o h).orders q (kept q j);
      aligned = λ q j.
          IsAligned-same s (list_del s o p) o q old-Deleted.marks.start
            ((b.area o h).aligned q (kept q j));
    }

    pub list_del-IsArea :
        (o' : ℕ)
        → o' ≤ max_order
        → IsArea (list_del s o p) o' (update lists o (remove p (lists o)) o')
    list_del-IsArea o' h' = elim (ℕ_discrete o o') [
      | yes same ↦
          subst (λ k. IsArea (list_del s o p) k (update lists o (remove p (lists o)) k)) same
            (subst (IsArea (list_del s o p) o) (sym here) shrunk-IsArea)
      | no ne ↦ subst (IsArea (list_del s o p) o') (sym (there ne)) (
          IsArea-frame (b.area o' h') old-Deleted.marks.start
            (old-Deleted.others o' (λ z. ne (sym z))) (λ q j. old-Deleted.marks.order q)
            (λ q j. (
              old-Deleted.next_kept q (λ z. absent ne q j p i z)
                  (λ e. absent ne q j q (prev-in b o p q h i e) refl),
              old-Deleted.prev_kept q (λ z. absent ne q j p i z)
                  (λ e. absent ne q j q (next-in b o p q h i e) refl),
            )))
    ]
      where
        here : update lists o (remove p (lists o)) o ≡ remove p (lists o)
        here = ground arith

        there : o ≢ o' → update lists o (remove p (lists o)) o' ≡ lists o'
        there ne = ground arith

        absent :
            o ≢ o' → (q : ℕ) → 0 < occurs q (lists o') → (r : ℕ) → 0 < occurs r (lists o) → q ≢ r
        absent ne q j r k z =
            omega (arith, j, elsewhere b o o' r h h' ne k, ap (λ k. occurs k (lists o')) z)
