-- ===== src/Mm/Buddy/Effect.antt =====
-- What `list_add` and `list_del` of arch/riscv64/mm/page_alloc.c change, page by page.
use mathlib.Core.Path.{subst}
use minix_rv.Prelude.{ℕ, ◌+◌, ◌≡◌, ◌≢◌, refl, sym, Option, none, some, arith, ◌%◌}
use minix_rv.Mm.Buddy.{
  Buddy, Page, u64_mod, sub64, set_page, set_area, link_prev, unlink_prev, list_add, list_del,
}

abbrev pub next_of : Buddy → ℕ → Option ℕ
next_of s q = (s.mem_map q).next

abbrev pub prev_of : Buddy → ℕ → Option ℕ
prev_of s q = (s.mem_map q).prev

-- All of the state but the links and the free areas.
pub record SameMarks (s s' : Buddy) : Type 0 where
  pub flags : (q : ℕ) → (s'.mem_map q).flags ≡ (s.mem_map q).flags
  pub order : (q : ℕ) → (s'.mem_map q).order ≡ (s.mem_map q).order
  pub refs : (q : ℕ) → (s'.mem_map q).ref_count ≡ (s.mem_map q).ref_count
  pub start : s'.start_pfn ≡ s.start_pfn
  pub end_ : s'.end_pfn ≡ s.end_pfn
  pub free : s'.free_page_count ≡ s.free_page_count

pub record Added (s : Buddy) (o p : ℕ) (s' : Buddy) : Type 0 where
  pub next_page : next_of s' p ≡ (s.free_area o).free_list
  pub prev_page : prev_of s' p ≡ none
  pub next_kept : (q : ℕ) → q ≢ p → next_of s' q ≡ next_of s q
  pub prev_head : (q : ℕ) → q ≢ p → (s.free_area o).free_list ≡ some q → prev_of s' q ≡ some p
  pub prev_kept : (q : ℕ) → q ≢ p → (s.free_area o).free_list ≢ some q → prev_of s' q ≡ prev_of s q
  pub head : (s'.free_area o).free_list ≡ some p
  pub count : (s'.free_area o).nr_free ≡ ((s.free_area o).nr_free + 1) % u64_mod
  pub others : (o' : ℕ) → o' ≢ o → s'.free_area o' ≡ s.free_area o'
  pub marks : SameMarks s s'

pub record Deleted (s : Buddy) (o p : ℕ) (s' : Buddy) : Type 0 where
  pub next_before : (q : ℕ) → q ≢ p → prev_of s p ≡ some q → next_of s' q ≡ next_of s p
  pub next_kept : (q : ℕ) → q ≢ p → prev_of s p ≢ some q → next_of s' q ≡ next_of s q
  pub prev_after : (q : ℕ) → q ≢ p → next_of s p ≡ some q → prev_of s' q ≡ prev_of s p
  pub prev_kept : (q : ℕ) → q ≢ p → next_of s p ≢ some q → prev_of s' q ≡ prev_of s q
  pub head_first : prev_of s p ≡ none → (s'.free_area o).free_list ≡ next_of s p
  pub head_kept :
      (q : ℕ) → prev_of s p ≡ some q → (s'.free_area o).free_list ≡ (s.free_area o).free_list
  pub count : (s'.free_area o).nr_free ≡ sub64 (s.free_area o).nr_free 1
  pub others : (o' : ℕ) → o' ≢ o → s'.free_area o' ≡ s.free_area o'
  pub marks : SameMarks s s'

some-inj : (p q : ℕ) → some p ≡ some q → p ≡ q
some-inj p q e = cc

-- `list_add` with the head of its list given apart.
added :
    (s : Buddy) (o p : ℕ) (h : Option ℕ)
    → (s.free_area o).free_list ≡ h
    → h ≢ some p
    → Added s o p (
        set_area
          (link_prev (set_page s p (record (s.mem_map p) { prev = none; next = h })) h (some p))
          o
          (record { free_list = some p; nr_free = ((s.free_area o).nr_free + 1) % u64_mod }))
unfolding link_prev
added s o p none e ne = record {
  next_page = ground arith;
  prev_page = ground arith;
  next_kept = λ q k. ground arith;
  prev_head = λ q k z. ground arith;
  prev_kept = λ q k z. ground arith;
  head = ground arith;
  count = ground arith;
  others = λ o' k. ground arith;
  marks = record {
    flags = λ q. ground arith;
    order = λ q. ground arith;
    refs = λ q. ground arith;
    start = refl;
    end_ = refl;
    free = refl;
  };
}
added s o p (some h) e ne = record {
  next_page = ground arith;
  prev_page = ground arith;
  next_kept = λ q k. ground arith;
  prev_head = λ q k z. ground arith;
  prev_kept = λ q k z. ground arith;
  head = ground arith;
  count = ground arith;
  others = λ o' k. ground arith;
  marks = record {
    flags = λ q. ground arith;
    order = λ q. ground arith;
    refs = λ q. ground arith;
    start = refl;
    end_ = refl;
    free = refl;
  };
}

pub list_add-Added :
    (s : Buddy) (o p : ℕ) → (s.free_area o).free_list ≢ some p → Added s o p (list_add s o p)
unfolding list_add
list_add-Added s o p ne = added s o p (s.free_area o).free_list refl ne

-- `list_del` with the neighbours of the page given apart.
deleted :
    (s : Buddy) (o p : ℕ) (a b : Option ℕ)
    → prev_of s p ≡ a
    → next_of s p ≡ b
    → a ≢ some p
    → b ≢ some p
    → let s1 = unlink_prev s o p a in
      let s2 = link_prev s1 b a in
      let s3 = set_page s2 p (record (s2.mem_map p) { next = none; prev = none }) in
      Deleted s o p
        (set_area s3 o (record (s3.free_area o) { nr_free = sub64 (s3.free_area o).nr_free 1 }))
unfolding link_prev unlink_prev
deleted s o p none none e f ne nf = record {
  next_before = λ q k z. ground arith;
  next_kept = λ q k z. ground arith;
  prev_after = λ q k z. ground arith;
  prev_kept = λ q k z. ground arith;
  head_first = λ z. ground arith;
  head_kept = λ q z. ground arith;
  count = ground arith;
  others = λ o' k. ground arith;
  marks = record {
    flags = λ q. ground arith;
    order = λ q. ground arith;
    refs = λ q. ground arith;
    start = refl;
    end_ = refl;
    free = refl;
  };
}
deleted s o p none (some b) e f ne nf = record {
  next_before = λ q k z. ground arith;
  next_kept = λ q k z. ground arith;
  prev_after = λ q k z. ground arith;
  prev_kept = λ q k z. ground arith;
  head_first = λ z. ground arith;
  head_kept = λ q z. ground arith;
  count = ground arith;
  others = λ o' k. ground arith;
  marks = record {
    flags = λ q. ground arith;
    order = λ q. ground arith;
    refs = λ q. ground arith;
    start = refl;
    end_ = refl;
    free = refl;
  };
}
deleted s o p (some a) none e f ne nf = record {
  next_before = λ q k z. ground arith;
  next_kept = λ q k z. ground arith;
  prev_after = λ q k z. ground arith;
  prev_kept = λ q k z. ground arith;
  head_first = λ z. ground arith;
  head_kept = λ q z. ground arith;
  count = ground arith;
  others = λ o' k. ground arith;
  marks = record {
    flags = λ q. ground arith;
    order = λ q. ground arith;
    refs = λ q. ground arith;
    start = refl;
    end_ = refl;
    free = refl;
  };
}
deleted s o p (some a) (some b) e f ne nf = record {
  next_before = λ q k z. ground arith;
  next_kept = λ q k z. ground arith;
  prev_after = λ q k z. ground arith;
  prev_kept = λ q k z. ground arith;
  head_first = λ z. ground arith;
  head_kept = λ q z. ground arith;
  count = ground arith;
  others = λ o' k. ground arith;
  marks = record {
    flags = λ q. ground arith;
    order = λ q. ground arith;
    refs = λ q. ground arith;
    start = refl;
    end_ = refl;
    free = refl;
  };
}

-- The first assignment of `list_del` leaves the page itself alone.
unlink_prev-page :
    (s : Buddy) (o p : ℕ) (a : Option ℕ)
    → a ≢ some p
    → (unlink_prev s o p a).mem_map p ≡ s.mem_map p
unfolding unlink_prev
unlink_prev-page s o p none h = refl
unlink_prev-page s o p (some q) h = ground arith

pub list_del-Deleted :
    (s : Buddy) (o p : ℕ)
    → prev_of s p ≢ some p
    → next_of s p ≢ some p
    → Deleted s o p (list_del s o p)
unfolding list_del
list_del-Deleted s o p h k =
    subst
      (λ (m : Page).
        let s1 = unlink_prev s o p (prev_of s p) in
        let s2 = link_prev s1 m.next m.prev in
        let s3 = set_page s2 p (record (s2.mem_map p) { next = none; prev = none }) in
        Deleted s o p
          (set_area s3 o (record (s3.free_area o) { nr_free = sub64 (s3.free_area o).nr_free 1 })))
      (sym (unlink_prev-page s o p (prev_of s p) h))
      (deleted s o p (prev_of s p) (next_of s p) refl refl h k)
