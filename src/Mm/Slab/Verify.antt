-- ===== src/Mm/Slab/Verify.antt =====
-- `kmalloc_verify` of arch/riscv64/mm/slab.c.
use minix_rv.Prelude.{
  ℕ, zero, suc, ◌+◌, Option, none, some, List, [], ◌∷◌, leb, ◌==◌, if◌then◌else◌,
}
use minix_rv.Mm.Slab.{Kmem}

module _ {A : Type 0} where
  -- The errors of the slabs in a list of partial, of full and of empty slabs.
  unfoldable pub errors_partial : ℕ → Kmem A → List ℕ → ℕ
  errors_partial c s [] = 0
  errors_partial c s (slab ∷ l) =
      let h = s.slabs slab in
      (if h.cache == c then 0 else 1)
      + (if leb h.total h.inuse then 1 else 0)
      + (if h.inuse == 0 then 1 else 0)
      + errors_partial c s l

  unfoldable pub errors_full : Kmem A → List ℕ → ℕ
  errors_full s [] = 0
  errors_full s (slab ∷ l) =
      let h = s.slabs slab in (if h.inuse == h.total then 0 else 1) + errors_full s l

  unfoldable pub errors_empty : Kmem A → List ℕ → ℕ
  errors_empty s [] = 0
  errors_empty s (slab ∷ l) = (if (s.slabs slab).inuse == 0 then 0 else 1) + errors_empty s l

  unfoldable pub cache_errors : Kmem A → Option ℕ → ℕ
  cache_errors s none = 0
  cache_errors s (some c) =
      let k = s.all_caches c in
      errors_partial c s k.slabs_partial + errors_full s k.slabs_full + errors_empty s k.slabs_empty

  -- The caches of `kmalloc` of the `n` indices from `i` on.
  unfoldable pub verify_from : ℕ → ℕ → Kmem A → ℕ
  verify_from zero i s = 0
  verify_from (suc n) i s = cache_errors s (s.kmalloc_caches i) + verify_from n (suc i) s

  unfoldable pub kmalloc_verify : Kmem A → ℕ
  kmalloc_verify s = verify_from 8 0 s
