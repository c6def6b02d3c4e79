-- ===== src/Mm/Vmalloc/Gaps.antt =====
-- The search for a gap between the areas of arch/riscv64/mm/vmalloc.c, and what keeps the areas apart.
use mathlib.Core.Path.{subst}
use minix_rv.Prelude.{
  ℕ, ◌+◌, ◌-◌, ◌≤◌, ◌<◌, ◌%◌, ◌≡◌, refl, sym, ◌⊎◌, inl, inr, true, false, some, List, [], ◌∷◌, ltb,
  leb, ◌==◌, Bool-cases, remove, occurs, arith, tests, lt→ltb,
}
use minix_rv.Fs.Base.{update}
use minix_rv.Mm.PageTable.{u64}
use minix_rv.Mm.Vmalloc.{VmStruct, vmalloc_end, gap_from, insert_area, find_area}

-- The areas are in use, do not overlap, and follow one another between the address and the end.
abbrev pub Spaced : (ℕ → VmStruct) → ℕ → List ℕ → Type 0
Spaced areas lo [] = lo ≤ vmalloc_end
Spaced areas lo (v ∷ l) =
    (lo ≤ (areas v).addr)
    × (0 < (areas v).size)
    × ((areas v).addr + (areas v).size ≤ vmalloc_end)
    × ((areas v).in_use ≡ true)
    × Spaced areas ((areas v).addr + (areas v).size) l

-- `size` bytes at `a` overlap no area and end in time.
abbrev pub Gap : (ℕ → VmStruct) → ℕ → ℕ → List ℕ → Type 0
Gap areas a size [] = a + size ≤ vmalloc_end
Gap areas a size (v ∷ l) =
    (a + size ≤ (areas v).addr) ⊎ (((areas v).addr + (areas v).size ≤ a) × Gap areas a size l)

-- The areas in use are the same.
abbrev pub Keeps : (ℕ → VmStruct) → (ℕ → VmStruct) → Type 0
Keeps areas areas' = (w : ℕ) → (areas w).in_use ≡ true → areas' w ≡ areas w

-- Where a search that began at `lo` ended.
abbrev pub IsLowest : (ℕ → VmStruct) → ℕ → ℕ → List ℕ → ℕ → Type 0
IsLowest areas lo size l r =
    ((r ≡ 0) × ((a : ℕ) → lo ≤ a → ¬ Gap areas a size l))
    ⊎ ((lo ≤ r) × Gap areas r size l × ((a : ℕ) → lo ≤ a → Gap areas a size l → r ≤ a))

not_ltb : (a b : ℕ) → b ≤ a → ltb a b ≡ false
not_ltb a b h = ground arith

pub Spaced-mono :
    (areas : ℕ → VmStruct) (l : List ℕ) (lo lo' : ℕ)
    → lo' ≤ lo
    → Spaced areas lo l
    → Spaced areas lo' l
Spaced-mono areas [] lo lo' h s = omega arith
Spaced-mono areas (v ∷ l) lo lo' h s = (omega arith, s.1, s.2, s.3, s.4)

remove_first : (w v : ℕ) (l : List ℕ) → (w == v) ≡ true → remove v (w ∷ l) ≡ l
unfolding remove
remove_first w v l same = rw same

remove_next : (w v : ℕ) (l : List ℕ) → (w == v) ≡ false → remove v (w ∷ l) ≡ w ∷ remove v l
unfolding remove
remove_next w v l other = rw other

module _ (areas : ℕ → VmStruct) where
  -- A gap behind an area, where there is none before it.
  IsLowest-cons :
      (v : ℕ) (l : List ℕ) (lo size r : ℕ)
      → lo ≤ (areas v).addr
      → (areas v).addr < lo + size
      → IsLowest areas ((areas v).addr + (areas v).size) size l r
      → IsLowest areas lo size (v ∷ l) r
  IsLowest-cons v l lo size r h full (inl (e, least)) =
      inl (e, λ a g k. elim k [ inl before ↦ omega arith | inr behind ↦ least a behind.0 behind.1 ])
  IsLowest-cons v l lo size r h full (inr (above, gap, least)) = inr (
    omega arith,
    inr (above, gap),
    λ a g k. elim k [ inl before ↦ absurd (omega arith) | inr behind ↦ least a behind.0 behind.1 ],
  )

  find_from_next :
      (v : ℕ) (l : List ℕ) (lo size : ℕ)
      → (areas v).addr + (areas v).size ≤ vmalloc_end
      → leb ((lo + size) % u64) (areas v).addr ≡ false
      → gap_from areas (v ∷ l) lo size ≡ gap_from areas l ((areas v).addr + (areas v).size) size
  unfolding gap_from
  find_from_next v l lo size h full =
      let next : ((areas v).addr + (areas v).size) % u64 ≡ (areas v).addr + (areas v).size =
        omega arith in
      rw (full, next)

  pub gap_from-IsLowest :
      (l : List ℕ) (lo size : ℕ)
      → 0 < lo
      → 0 < size
      → size < u64 - vmalloc_end
      → Spaced areas lo l
      → IsLowest areas lo size l (gap_from areas l lo size)
  unfolding gap_from
  gap_from-IsLowest [] lo size h p q s = elim (Bool-cases (leb ((lo + size) % u64) vmalloc_end)) [
    | inl fits ↦ rw fits (inr (omega arith, omega tests, λ a g k. g))
    | inr full ↦ rw full (inl (refl, λ a g k. ground arith))
  ]
  gap_from-IsLowest (v ∷ l) lo size h p q s =
      elim (Bool-cases (leb ((lo + size) % u64) (areas v).addr)) [
        | inl fits ↦ rw fits (inr (omega arith, inl (omega tests), λ a g k. g))
        | inr full ↦
            subst (IsLowest areas lo size (v ∷ l)) (sym (find_from_next v l lo size s.2 full)) (
              IsLowest-cons v l lo size (gap_from areas l ((areas v).addr + (areas v).size) size)
                s.0 (ground arith)
                (gap_from-IsLowest l ((areas v).addr + (areas v).size) size (omega arith) p q s.4))
      ]

  pub Spaced-insert_area :
      (v : ℕ) (l : List ℕ) (lo : ℕ)
      → lo ≤ (areas v).addr
      → 0 < (areas v).size
      → (areas v).in_use ≡ true
      → Gap areas (areas v).addr (areas v).size l
      → Spaced areas lo l
      → Spaced areas lo (insert_area areas v l)
  unfolding insert_area
  Spaced-insert_area v [] lo h p u g s = (h, p, g, u, g)
  Spaced-insert_area v (w ∷ l) lo h p u (inl before) s =
      rw (not_ltb (areas w).addr (areas v).addr (omega arith))
        (h, p, omega arith, u, (before, s.1, s.2, s.3, s.4))
  Spaced-insert_area v (w ∷ l) lo h p u (inr (after, g)) s =
      rw (lt→ltb (areas w).addr (areas v).addr (omega arith)) (
        s.0,
        s.1,
        s.2,
        s.3,
        Spaced-insert_area v l ((areas w).addr + (areas w).size) after p u g s.4,
      )

  -- Only areas that are in use count.
  module _ {areas' : ℕ → VmStruct} (same : Keeps areas areas') where
    pub Spaced-Keeps : (l : List ℕ) (lo : ℕ) → Spaced areas lo l → Spaced areas' lo l
    Spaced-Keeps [] lo s = s
    Spaced-Keeps (w ∷ l) lo s =
        rw (same w s.3) (s.0, s.1, s.2, s.3, Spaced-Keeps l ((areas w).addr + (areas w).size) s.4)

    pub Gap-Keeps :
        (a size : ℕ) (l : List ℕ) (lo : ℕ)
        → Spaced areas lo l
        → Gap areas a size l
        → Gap areas' a size l
    Gap-Keeps a size [] lo s g = g
    Gap-Keeps a size (w ∷ l) lo s (inl before) = rw (same w s.3) (inl before)
    Gap-Keeps a size (w ∷ l) lo s (inr (after, g)) =
        rw (same w s.3) (inr (after, Gap-Keeps a size l ((areas w).addr + (areas w).size) s.4 g))

    pub gap_from-Keeps :
        (l : List ℕ) (lo a size : ℕ)
        → Spaced areas lo l
        → gap_from areas' l a size ≡ gap_from areas l a size
    unfolding gap_from
    gap_from-Keeps [] lo a size s = refl
    gap_from-Keeps (w ∷ l) lo a size s = rw (
      same w s.3,
      gap_from-Keeps l ((areas w).addr + (areas w).size) (((areas w).addr + (areas w).size) % u64)
          size s.4,
    )

  pub Keeps-update :
      (areas' : ℕ → VmStruct) (v : ℕ) (x : VmStruct)
      → (areas v).in_use ≡ false
      → Keeps areas areas'
      → Keeps areas (update areas' v x)
  Keeps-update areas' v x u k w t = elim (Bool-cases (v == w)) [
    | inl same ↦ ground arith
    | inr other ↦ rw other (k w t)
  ]

  -- An area that is in use and not in a gap is the one that is found.
  pub find_area-insert_area :
      (v : ℕ) (l : List ℕ)
      → 0 < (areas v).size
      → Gap areas (areas v).addr (areas v).size l
      → (lo : ℕ) → Spaced areas lo l
      → find_area areas (insert_area areas v l) (areas v).addr ≡ some v
  unfolding find_area insert_area
  find_area-insert_area v [] p g lo s = ground arith
  find_area-insert_area v (w ∷ l) p (inl before) lo s =
      rw (not_ltb (areas w).addr (areas v).addr (omega arith)) (ground arith)
  find_area-insert_area v (w ∷ l) p (inr (after, g)) lo s =
      rw (lt→ltb (areas w).addr (areas v).addr (omega arith))
        (ground (arith, find_area-insert_area v l p g ((areas w).addr + (areas w).size) s.4))

  -- An area in use is not in the list of which it is no member.
  pub occurs-Spaced :
      (v : ℕ) (l : List ℕ) (lo : ℕ) → (areas v).in_use ≡ false → Spaced areas lo l → occurs v l ≡ 0
  occurs-Spaced v [] lo u s = refl
  occurs-Spaced v (w ∷ l) lo u s =
      ground (arith, occurs-Spaced v l ((areas w).addr + (areas w).size) u s.4)

  pub remove-insert_area :
      (v : ℕ) (l : List ℕ) → occurs v l ≡ 0 → remove v (insert_area areas v l) ≡ l
  unfolding remove insert_area
  remove-insert_area v [] h = ground arith
  remove-insert_area v (w ∷ l) h = elim (Bool-cases (ltb (areas w).addr (areas v).addr)) [
    | inl before ↦ rw before (ground (arith, remove-insert_area v l))
    | inr behind ↦ rw behind (ground arith)
  ]

  pub find_area-used :
      (l : List ℕ) (lo a : ℕ) {v : ℕ}
      → find_area areas l a ≡ some v
      → Spaced areas lo l
      → ((areas v).addr ≡ a) × (0 < occurs v l)
  unfolding find_area
  find_area-used [] lo a h s = cc
  find_area-used (w ∷ l) lo a {v} h s = elim (Bool-cases ((areas w).addr == a)) [
    | inl same ↦ ground arith
    | inr other ↦
        ground
          (arith, find_area-used l ((areas w).addr + (areas w).size) a {v = v} (rw other at h) s.4)
  ]

  pub occurs-behind :
      (v : ℕ) (l : List ℕ) (lo : ℕ) → (areas v).addr < lo → Spaced areas lo l → occurs v l ≡ 0
  occurs-behind v [] lo h s = refl
  occurs-behind v (w ∷ l) lo h s =
      ground (arith, occurs-behind v l ((areas w).addr + (areas w).size) (omega arith) s.4)

  pub Spaced-update :
      (v : ℕ) (x : VmStruct) (l : List ℕ) (lo : ℕ)
      → occurs v l ≡ 0
      → Spaced areas lo l
      → Spaced (update areas v x) lo l
  Spaced-update v x [] lo h s = s
  Spaced-update v x (w ∷ l) lo h s = elim (Bool-cases (v == w)) [
    | inl same ↦ absurd (ground arith)
    | inr other ↦ rw other (
      s.0,
      s.1,
      s.2,
      s.3,
      Spaced-update v x l ((areas w).addr + (areas w).size) (ground arith) s.4,
    )
  ]

  Spaced-cons_update :
      (v : ℕ) (x : VmStruct) (w : ℕ) (l : List ℕ) (lo : ℕ)
      → (w == v) ≡ false
      → (lo ≤ (areas w).addr)
      → (0 < (areas w).size)
      → ((areas w).addr + (areas w).size ≤ vmalloc_end)
      → ((areas w).in_use ≡ true)
      → Spaced (update areas v x) ((areas w).addr + (areas w).size) l
      → Spaced (update areas v x) lo (w ∷ l)
  Spaced-cons_update v x w l lo other a b c d s =
      let e : (v == w) ≡ false = ground arith in rw e (a, b, c, d, s)

  -- An area taken out, whatever becomes of it.
  pub Spaced-remove :
      (v : ℕ) (x : VmStruct) (l : List ℕ) (lo : ℕ)
      → Spaced areas lo l
      → Spaced (update areas v x) lo (remove v l)
  unfolding remove
  Spaced-remove v x [] lo s = omega arith
  Spaced-remove v x (w ∷ l) lo s =
      let end_ : ℕ = (areas w).addr + (areas w).size in
      elim (Bool-cases (w == v)) [
        | inl same ↦ subst (Spaced (update areas v x) lo) (sym (remove_first w v l same)) (
            Spaced-mono (update areas v x) l end_ lo (omega arith)
              (Spaced-update v x l end_ (occurs-behind v l end_ (ground arith) s.4) s.4))
        | inr other ↦ subst (Spaced (update areas v x) lo) (sym (remove_next w v l other)) (
            Spaced-cons_update v x w (remove v l) lo other s.0 s.1 s.2 s.3
              (Spaced-remove v x l end_ s.4))
      ]
