-- ===== src/Mm/Slab/Chain.antt =====
-- The free list of a new slab of arch/riscv64/mm/slab.c.
use minix_rv.Prelude.{
  ℕ, zero, suc, ◌+◌, ◌*◌, ◌≤◌, ◌<◌, ◌≡◌, refl, ◌∙◌, ◌==◌, List, [], ◌∷◌, true, arith,
}
use minix_rv.Mm.PageTable.{u64}
use minix_rv.Mm.Slab.{
  Kmem, Place, head, cell, obj_at, set_place, link_objs, slab_base, slab_init_objs,
}

-- The list at `x` has these objects, one after the other, and ends with NULL.
pub IsChain : (ℕ → ℕ) → ℕ → List ℕ → Type 0
IsChain word x [] = x ≡ 0
IsChain word x (a ∷ l) = (x ≡ a) × IsChain word (word a) l

-- The `n` objects from `i` on.
unfoldable pub objs_from : ℕ → ℕ → ℕ → ℕ → List ℕ
objs_from base size zero i = []
objs_from base size (suc n) i = obj_at base size i ∷ objs_from base size n (suc i)

-- The place stands before an address.
IsBefore : ℕ → Place → Type 0
IsBefore a (head slab) = Unit
IsBefore a (cell b) = b < a

IsBefore-trans : (p : Place) (a b : ℕ) → IsBefore a p → a ≤ b → IsBefore b p
unfolding IsBefore
IsBefore-trans (head slab) a b before le = before
IsBefore-trans (cell c) a b before le = omega arith

module _ {A : Type 0} where
  place_word : Place → Kmem A → ℕ
  place_word (head slab) s = (s.slabs slab).free_list
  place_word (cell a) s = s.word a

  place_word-set_place : (p : Place) (x : ℕ) (s : Kmem A) → place_word p (set_place p x s) ≡ x
  unfolding place_word set_place
  place_word-set_place (head slab) x s = ground arith
  place_word-set_place (cell a) x s = ground arith

  place_word-cell :
      (p : Place) (a x : ℕ) (s : Kmem A)
      → IsBefore a p
      → place_word p (set_place (cell a) x s) ≡ place_word p s
  unfolding place_word set_place IsBefore
  place_word-cell (head slab) a x s before = refl
  place_word-cell (cell b) a x s before = ground arith

module _ (base size : ℕ) (positive : 0 < size) where
  obj_at-fits : (n i : ℕ) → base + i * size + n * size < u64 → obj_at base size i ≡ base + i * size
  obj_at-fits n i fits = omega arith

  obj_at-suc :
      (n i : ℕ)
      → base + i * size + suc n * size < u64
      → obj_at base size i < obj_at base size (suc i)
  obj_at-suc n i fits = omega arith

  fits_next :
      (n i : ℕ) → base + i * size + suc n * size < u64 → base + suc i * size + n * size < u64
  fits_next n i fits = omega arith

  module _ {A : Type 0} where
    -- The loop changes no place before the one that it is at.
    link_objs-before :
        (n i : ℕ) (p : Place) (s : Kmem A)
        → base + i * size + n * size < u64
        → (a : ℕ) → IsBefore a p
        → a ≤ obj_at base size i
        → place_word p (link_objs base size n i (cell a) s) ≡ place_word p s
    unfolding link_objs
    link_objs-before zero i p s fits a before le = place_word-cell p a 0 s before
    link_objs-before (suc n) i p s fits a before le =
        link_objs-before n (suc i) p (set_place (cell a) (obj_at base size i) s)
          (fits_next n i fits) (obj_at base size i)
          (IsBefore-trans p a (obj_at base size i) before le) (omega (arith, obj_at-suc n i fits))
        ∙ place_word-cell p a (obj_at base size i) s before

    -- The list at the place `p` is that of the objects from `i` on.
    link_objs-IsChain :
        (n i : ℕ) (p : Place) (s : Kmem A)
        → base + i * size + n * size < u64
        → IsBefore (obj_at base size i) p
        → let s' = link_objs base size n i p s in
          IsChain s'.word (place_word p s') (objs_from base size n i)
    unfolding link_objs objs_from IsChain IsBefore place_word
    link_objs-IsChain zero i p s fits before = place_word-set_place p 0 s
    link_objs-IsChain (suc n) i p s fits before =
        let a = obj_at base size i in
        let t = set_place p a s in
        (
          link_objs-before n (suc i) p t (fits_next n i fits) a before
                (omega (arith, obj_at-suc n i fits))
              ∙ place_word-set_place p a s,
          link_objs-IsChain n (suc i) (cell a) t (fits_next n i fits) (obj_at-suc n i fits),
        )

pub same : (a : ℕ) → (a == a) ≡ true
same a = ground arith

module _ {A : Type 0} where
  -- The free list of an initialised slab has all objects of the page, in the order of their addresses.
  pub slab_init_objs-IsChain :
      (page c : ℕ) (s : Kmem A)
      → let k = s.all_caches c in
        let base = slab_base page k.alignment in
        0 < k.obj_size
        → base + k.objs_per_slab * k.obj_size < u64
        → let s' = slab_init_objs page c s in
          IsChain s'.word (s'.slabs page).free_list (objs_from base k.obj_size k.objs_per_slab 0)
  unfolding slab_init_objs place_word IsBefore
  slab_init_objs-IsChain page c s positive fits =
      let k = s.all_caches c in
      rw (same page) (
        link_objs-IsChain (slab_base page k.alignment) k.obj_size positive k.objs_per_slab 0
          (head page) s (omega arith) (tt))
