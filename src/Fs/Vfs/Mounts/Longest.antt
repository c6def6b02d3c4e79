-- ===== src/Fs/Vfs/Mounts/Longest.antt =====
-- `vfs_find_mount` of fs/vfs.c finds the longest mount path that begins the path.
use mathlib.Core.Path.{subst}
use native.Mathlib.Decide.{ℕ_discrete}
use minix_rv.Prelude.{
  length-append, ℕ, zero, suc, ◌+◌, ◌≤◌, ◌<◌, ◌≡◌, refl, sym, ap, inl, inr, List, [], ◌∷◌, ◌++◌,
  Option, none, some, arith, length, ltb, Bool-cases, Option-cases,
}
use minix_rv.Fs.Vfs.Types.{Mount, World}
use minix_rv.Fs.Vfs.Mounts.{match_mount, improve, find_best, find_mount}

-- The mount path `m` begins `path`.
abbrev pub Under : List ℕ → List ℕ → Type 0
Under m path = (rest : List ℕ) × (path ≡ m ++ rest)

match_mount-some :
    (m path : List ℕ) {n : ℕ} → match_mount m path ≡ some n → Under m path × (n ≡ length m)
unfolding match_mount
match_mount-some [] path e = ((path, refl), ground arith)
match_mount-some (a ∷ m) [] e = ground arith
match_mount-some (a ∷ m) (b ∷ path) {n} e = elim (Option-cases (match_mount m path)) [
  | inl stop ↦ ground arith
  | inr (k, go) ↦
      let ih = match_mount-some m path {n = k} go in ((ih.0.0, ground arith), ground arith)
]

match_mount-none : (m path : List ℕ) → match_mount m path ≡ none → ¬ Under m path
unfolding match_mount
match_mount-none [] path e u = ground arith
match_mount-none (a ∷ m) [] e u = ground arith
match_mount-none (a ∷ m) (b ∷ path) e (rest, u) = elim (Option-cases (match_mount m path)) [
  | inl stop ↦ match_mount-none m path stop (rest, ground arith)
  | inr (k, go) ↦ ground arith
]

module _ {S : Type 0} (table : ℕ → Mount S) (path : List ℕ) where
  -- What `best_match` and `best_len` say of the slots below `i`.
  abbrev Best : ℕ → Option ℕ × ℕ → Type 0
  Best i (none, l) =
      (l ≡ 0) × ((j : ℕ) → j < i → Under (table j).path path → length (table j).path ≡ 0)
  Best i (some b, l) =
      (b < i)
      × Under (table b).path path
      × (l ≡ length (table b).path)
      × (0 < l)
      × ((j : ℕ) → j < i → Under (table j).path path → length (table j).path ≤ l)
      × ((j : ℕ) → j < b → Under (table j).path path → length (table j).path < l)

  Best-le :
      (i : ℕ) (o : Option ℕ) (l : ℕ)
      → Best i (o, l)
      → (j : ℕ) → j < i
      → Under (table j).path path
      → length (table j).path ≤ l
  Best-le i none l h j lt u = omega (arith, h.1 j lt u)
  Best-le i (some b) l h j lt u = h.4 j lt u

  -- A property of the slots below `i` and of slot `i` holds of those below `i + 1`.
  extend {ℓ} : (P : ℕ → Type ℓ) (i : ℕ) → ((j : ℕ) → j < i → P j) → P i → (j : ℕ) → j < suc i → P j
  extend P i old new j lt = elim (ℕ_discrete j i) [
    | yes e ↦ subst P (sym e) new
    | no ne ↦ old j (omega arith)
  ]

  skip-Best :
      (i : ℕ) (o : Option ℕ) (l : ℕ)
      → Best i (o, l)
      → (Under (table i).path path → length (table i).path ≤ l)
      → Best (suc i) (o, l)
  skip-Best i none l (z, h) new = (
    z,
    extend (λ j. Under (table j).path path → length (table j).path ≡ 0) i h
        (λ u. omega (arith, new u)),
  )
  skip-Best i (some b) l (lt, u, e, pos_len, h, first) new = (
    omega arith,
    u,
    e,
    pos_len,
    extend (λ j. Under (table j).path path → length (table j).path ≤ l) i h new,
    first,
  )

  improve-Best :
      (i : ℕ) (best : Option ℕ × ℕ)
      → Best i best
      → Best (suc i) (improve (match_mount (table i).path path) i best)
  unfolding improve
  improve-Best i (o, l) h = elim (Option-cases (match_mount (table i).path path)) [
    | inl miss ↦
        rw (miss, improve)
          (skip-Best i o l h λ u. absurd (match_mount-none (table i).path path miss u))
    | inr (n, found) ↦
        let (u, e) = match_mount-some (table i).path path {n = n} found in
        elim (Bool-cases (ltb l n)) [
          | inl longer ↦
              rw (found, improve)
                (rw longer (
                  omega arith,
                  u,
                  e,
                  ground arith,
                  extend (λ j. Under (table j).path path → length (table j).path ≤ n) i
                      (λ j lt v. ground (arith, Best-le i o l h j lt v)) (λ _. omega (arith, e)),
                  λ j lt v. ground (arith, Best-le i o l h j lt v),
                ))
          | inr shorter ↦ rw (found, improve) (rw shorter (skip-Best i o l h λ _. ground arith))
        ]
  ]

  find_best-Best :
      (n i : ℕ) (best : Option ℕ × ℕ) → Best i best → Best (i + n) (find_best table path n i best)
  unfolding find_best
  find_best-Best zero i best h = subst (λ k. Best k best) (omega arith) h
  find_best-Best (suc n) i best h =
      subst
        (λ k.
          Best k
            (find_best table path n (suc i) (improve (match_mount (table i).path path) i best)))
        (omega arith)
        (find_best-Best n (suc i) (improve (match_mount (table i).path path) i best)
          (improve-Best i best h))

-- What `vfs_find_mount` answers: with no mount, that none with a path that is not empty begins the
-- path; else the first of those whose path is the longest.
abbrev pub IsLongest : {S : Type 0} → World S → List ℕ → Option ℕ → Type 0
IsLongest w path none =
    (j : ℕ)
    → j < w.num_mounts
    → Under (w.mount_table j).path path
    → length (w.mount_table j).path ≡ 0
IsLongest w path (some i) =
    (i < w.num_mounts)
    × Under (w.mount_table i).path path
    × (0 < length (w.mount_table i).path)
    × ((j : ℕ)
        → j < w.num_mounts
        → Under (w.mount_table j).path path
        → length (w.mount_table j).path ≤ length (w.mount_table i).path)
    × ((j : ℕ)
        → j < i
        → Under (w.mount_table j).path path
        → length (w.mount_table j).path < length (w.mount_table i).path)

Best-IsLongest :
    {S : Type 0} (w : World S) (path : List ℕ) (best : Option ℕ × ℕ)
    → Best w.mount_table path (0 + w.num_mounts) best
    → IsLongest w path best.0
Best-IsLongest w path (none, l) h = λ j lt u. h.1 j (omega arith) u
Best-IsLongest w path (some i, l) (lt, u, e, pos_len, h, first) = (
  omega arith,
  u,
  omega arith,
  λ j k v. omega (arith, h j (omega arith) v),
  λ j k v. omega (arith, first j k v),
)

-- `vfs_find_mount` finds, of the mounts whose path begins the path and is not empty, the first of
-- those with the longest path; or NULL, and then there is none. Any prefix counts, not only one
-- that ends between two components.
pub find_mount-IsLongest :
    {S : Type 0} (w : World S) (path : List ℕ) → IsLongest w path (find_mount w path)
unfolding find_mount
find_mount-IsLongest w path =
    Best-IsLongest w path (find_best w.mount_table path w.num_mounts 0 (none, 0)) (
      find_best-Best w.mount_table path w.num_mounts 0 (none, 0)
        (refl, λ j lt u. absurd (omega arith)))

-- No mount begins the empty path, whatever is mounted.
pub find_mount-nil : {S : Type 0} (w : World S) → find_mount w [] ≡ none
find_mount-nil w = elim (Option-cases (find_mount w [])) [
  | inl e ↦ e
  | inr (i, e) ↦ absurd (empty_prefix (subst (IsLongest w []) e (find_mount-IsLongest w [])))
]
  where
    empty_prefix : {i : ℕ} → ¬ IsLongest w [] (some i)
    empty_prefix {i} (lt, (rest, u), pos_len, _, _) =
        omega (arith, ap length u, length-append (w.mount_table i).path rest)
