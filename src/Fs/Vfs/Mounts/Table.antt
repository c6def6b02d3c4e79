-- ===== src/Fs/Vfs/Mounts/Table.antt =====
-- The tables of fs/vfs.c after `vfs_register_fs`, `vfs_mount` and `vfs_unmount`.
use minix_rv.Prelude.{
  ℕ, zero, suc, ◌+◌, ◌-◌, ◌≤◌, ◌<◌, ◌≡◌, refl, ◌⊎◌, inl, inr, List, Bool, true, false, ◌&&◌, some,
  arith, ℤ, pos, minus_one, ltb, leb, if◌then◌else◌, Bool-cases, Option-cases,
}
use minix_rv.Fs.Base.{update, same_text, same_text_iff, copy_text}
use minix_rv.Fs.Vfs.Types.{Mount, World}
use minix_rv.Fs.Vfs.Mounts.{
  max_mount_points, find_fs, mount, finish_mount, call_mount, new_mount, root_of, unmount,
  find_path_from, shift_from,
}

module _ {S : Type 0} where
  shift_from_lem :
      (table : ℕ → Mount S) (n j k : ℕ)
      → shift_from table n j k ≡ (if leb j k && ltb k (j + n) then table (k + 1) else table k)
  unfolding shift_from
  shift_from_lem table zero j k = ground arith
  shift_from_lem table (suc n) j k =
      ground (arith, shift_from_lem (update table j (table (j + 1))) n (suc j) k)

  -- The first slot with the path is found.
  find_path_from_lem :
      (table : ℕ → Mount S) (point : List ℕ) (n i : ℕ) {k : ℕ}
      → find_path_from table point n i ≡ some k
      → (i ≤ k) × (k < i + n) × ((table k).path ≡ point)
  unfolding find_path_from
  find_path_from_lem table point zero i e = ground arith
  find_path_from_lem table point (suc n) i {k} e =
      elim (Bool-cases (same_text (table i).path point)) [
        | inl here ↦ ground (arith, (same_text_iff (table i).path point).0)
        | inr other ↦
            let ih = find_path_from_lem table point n (suc i) {k = k} (ground arith) in
            (omega arith, omega arith, ih.2)
      ]

  -- What a table looks like without its slot `i`.
  abbrev pub Removed : ℕ → ℕ → (ℕ → Mount S) → (ℕ → Mount S) → Type 0
  Removed i n old new = (k : ℕ) → k < n - 1 → new k ≡ (if ltb k i then old k else old (k + 1))

  -- A `vfs_unmount` that returns 0 has removed one slot with the given path, kept the order of the
  -- others, and counted it out.
  pub unmount-Removed :
      (w : World S) (point : List ℕ) {w' : World S}
      → unmount w point ≡ (pos 0, w')
      → (i : ℕ) × (i < w.num_mounts)
        × ((w.mount_table i).path ≡ point)
        × (w'.num_mounts + 1 ≡ w.num_mounts)
        × Removed i w.num_mounts w.mount_table w'.mount_table
  unfolding unmount
  unmount-Removed w point {w'} e =
      elim (Option-cases (find_path_from w.mount_table point w.num_mounts 0)) [
        | inl missing ↦ ground arith
        | inr (i, found) ↦
            let (low, high, same) =
              find_path_from_lem w.mount_table point w.num_mounts 0 {k = i} found in
            (
              i,
              omega arith,
              same,
              ground arith,
              λ k lt. ground (arith, shift_from_lem w.mount_table (w.num_mounts - 1 - i) i k),
            )
      ]

  -- What a call of `vfs_mount` may change: the tables of file systems and the mounts that are there
  -- stay as they are, and only success adds one.
  pub record MountResult (w : World S) (point : List ℕ) (r : ℤ) (w' : World S) : Type 0 where
    pub kept : (k : ℕ) → k < w.num_mounts → w'.mount_table k ≡ w.mount_table k
    pub types : w'.fs_types ≡ w.fs_types
    pub added :
        ((r ≡ minus_one) × (w'.num_mounts ≡ w.num_mounts))
        ⊎ ((r ≡ pos 0)
            × (w.num_mounts < max_mount_points)
            × (w'.num_mounts ≡ w.num_mounts + 1)
            × ((w'.mount_table w.num_mounts).path ≡ copy_text 255 point))

  finish_mount-MountResult :
      (w : World S) (m : Mount S) (point : List ℕ) (b : Bool) (fs : S)
      → w.num_mounts < max_mount_points
      → m.path ≡ copy_text 255 point
      → let (r, w') = finish_mount w m (b, fs) in MountResult w point r w'
  unfolding finish_mount
  finish_mount-MountResult w m point false fs h e = record {
    kept = λ k lt. ground arith;
    types = refl;
    added = inl (refl, refl);
  }
  finish_mount-MountResult w m point true fs h e = elim (Option-cases (root_of m.ops fs)) [
    | inl missing ↦
        rw (missing, finish_mount)
          (record { kept = λ k lt. ground arith; types = refl; added = inl (refl, refl) })
    | inr (root, found) ↦
        rw (found, finish_mount)
          (record {
            kept = λ k lt. ground arith;
            types = refl;
            added = inr (refl, h, refl, ground arith);
          })
  ]

  -- `vfs_mount` either returns -1 and adds no mount, or returns 0, there was a free slot, and the new
  -- mount stands behind the others with its path cut to 255 characters.
  pub mount-MountResult :
      (w : World S) (device point fstype : List ℕ)
      → let (r, w') = mount w device point fstype in MountResult w point r w'
  unfolding mount
  mount-MountResult w device point fstype = elim (Bool-cases (leb max_mount_points w.num_mounts)) [
    | inl full ↦ rw full (record { kept = λ k lt. refl; types = refl; added = inl (refl, refl) })
    | inr room ↦ rw room (elim (Option-cases (find_fs w fstype)) [
      | inl unknown ↦
          rw (unknown, mount)
            (record { kept = λ k lt. refl; types = refl; added = inl (refl, refl) })
      | inr (ops, found) ↦
          rw (found, mount)
            (finish_mount-MountResult w (new_mount ops device point) point
              (call_mount ops w.fs device point).0 (call_mount ops w.fs device point).1
              (ground arith) refl)
    ])
  ]
