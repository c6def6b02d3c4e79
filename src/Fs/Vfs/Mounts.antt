-- ===== src/Fs/Vfs/Mounts.antt =====
-- Registering, mounting and unmounting file systems, and the mount of a path, as in fs/vfs.c.
pub mod Longest
pub mod Table
mod Tests
use minix_rv.Prelude.{
  ℕ, zero, suc, ◌+◌, ◌-◌, List, [], ◌∷◌, Bool, true, false, Option, none, some, ℤ, pos, minus_one,
  ltb, leb, ◌==◌, if◌then◌else◌,
}
use mathlib.Core.Option as Option
use minix_rv.Fs.Base.{update, same_text, copy_text}
use minix_rv.Fs.Vfs.Types.{FsOps, Mount, World}

abbrev pub max_fs_types : ℕ
max_fs_types = 16

abbrev pub max_mount_points : ℕ
max_mount_points = 32

-- How much of the mount's path the loop of `vfs_find_mount` passes, if it reaches the NUL of it.
pub match_mount : List ℕ → List ℕ → Option ℕ
match_mount [] path = some 0
match_mount (a ∷ mnt) [] = none
match_mount (a ∷ mnt) (b ∷ path) = if a == b then Option.map suc (match_mount mnt path) else none

-- `best_match` and `best_len` after the slot `i`.
improve : Option ℕ → ℕ → Option ℕ × ℕ → Option ℕ × ℕ
improve none i best = best
improve (some len) i best = if ltb best.1 len then (some i, len) else best

module _ {S : Type 0} where
  unfoldable pub vfs_init : World S → World S
  vfs_init w = record w { fs_types = λ i. if ltb i max_fs_types then none else w.fs_types i }

  unfoldable pub register_fs : World S → Option (FsOps S) → ℤ × World S
  register_fs w ops = if leb max_fs_types w.num_fs_types then (minus_one, w) else elim ops [
    | none ↦ (minus_one, w)
    | some o ↦ (
      pos 0,
      record w {
        fs_types = update w.fs_types w.num_fs_types (some o);
        num_fs_types = w.num_fs_types + 1;
      },
    )
  ]

  -- Whether an entry of `fs_types` has the name.
  named : List ℕ → Option (FsOps S) → Bool
  named fstype none = false
  named fstype (some o) = elim o.name [ none ↦ false | some n ↦ same_text n fstype ]

  find_fs_from : (ℕ → Option (FsOps S)) → List ℕ → ℕ → ℕ → Option (FsOps S)
  unfolding named
  find_fs_from types fstype zero i = none
  find_fs_from types fstype (suc n) i =
      let rest = find_fs_from types fstype n (suc i) in
      if named fstype (types i) then types i else rest

  unfoldable pub find_fs : World S → List ℕ → Option (FsOps S)
  unfolding find_fs_from
  find_fs w fstype = find_fs_from w.fs_types fstype w.num_fs_types 0

  -- The slot that `vfs_mount` fills before it calls the file system.
  new_mount : FsOps S → List ℕ → List ℕ → Mount S
  new_mount ops device point = record {
    path = copy_text 255 point;
    device = copy_text 255 device;
    root = none;
    ops = ops;
  }

  -- `ops->mount && ops->mount(device, mount_point) != 0`, with what the call does to memory.
  call_mount : FsOps S → S → List ℕ → List ℕ → Bool × S
  call_mount ops fs device point = elim ops.mount [
    | none ↦ (true, fs)
    | some m ↦ let (r, fs') = m fs device point in (elim r [ pos n ↦ n == 0 | _ ↦ false ], fs')
  ]

  -- `mnt->root`, or `none` where the root inode is wanted and missing.
  root_of : FsOps S → S → Option (Option ℕ)
  root_of ops fs = elim ops.read_inode [ none ↦ some none | some get ↦ Option.map some (get fs 1) ]

  finish_mount : World S → Mount S → Bool × S → ℤ × World S
  unfolding root_of
  finish_mount w m (false, fs) =
      (minus_one, record w { fs = fs; mount_table = update w.mount_table w.num_mounts m })
  finish_mount w m (true, fs) = elim (root_of m.ops fs) [
    | none ↦ (minus_one, record w { fs = fs; mount_table = update w.mount_table w.num_mounts m })
    | some root ↦ (
      pos 0,
      record w {
        fs = fs;
        mount_table = update w.mount_table w.num_mounts (record m { root = root });
        num_mounts = w.num_mounts + 1;
      },
    )
  ]

  unfoldable pub mount : World S → List ℕ → List ℕ → List ℕ → ℤ × World S
  unfolding finish_mount new_mount call_mount
  mount w device point fstype =
      if leb max_mount_points w.num_mounts then (minus_one, w) else elim (find_fs w fstype) [
        | none ↦ (minus_one, w)
        | some ops ↦ finish_mount w (new_mount ops device point) (call_mount ops w.fs device point)
      ]

  find_path_from : (ℕ → Mount S) → List ℕ → ℕ → ℕ → Option ℕ
  find_path_from table point zero i = none
  find_path_from table point (suc n) i =
      let rest = find_path_from table point n (suc i) in
      if same_text (table i).path point then some i else rest

  -- `for (j = i; j < num_mounts - 1; j++) mount_table[j] = mount_table[j + 1];`
  shift_from : (ℕ → Mount S) → ℕ → ℕ → ℕ → Mount S
  shift_from table zero j = table
  shift_from table (suc n) j = shift_from (update table j (table (j + 1))) n (suc j)

  call_unmount : FsOps S → S → List ℕ → S
  call_unmount ops fs point = elim ops.unmount [ none ↦ fs | some u ↦ (u fs point).1 ]

  unfoldable pub unmount : World S → List ℕ → ℤ × World S
  unfolding find_path_from shift_from call_unmount
  unmount w point = elim (find_path_from w.mount_table point w.num_mounts 0) [
    | none ↦ (minus_one, w)
    | some i ↦ (
      pos 0,
      record w {
        fs = call_unmount (w.mount_table i).ops w.fs point;
        mount_table = shift_from w.mount_table (w.num_mounts - 1 - i) i;
        num_mounts = w.num_mounts - 1;
      },
    )
  ]

  find_best : (ℕ → Mount S) → List ℕ → ℕ → ℕ → Option ℕ × ℕ → Option ℕ × ℕ
  unfolding improve match_mount
  find_best table path zero i best = best
  find_best table path (suc n) i best =
      find_best table path n (suc i) (improve (match_mount (table i).path path) i best)

  -- The index of the mount, for its pointer.
  unfoldable pub find_mount : World S → List ℕ → Option ℕ
  unfolding find_best
  find_mount w path = (find_best w.mount_table path w.num_mounts 0 (none, 0)).0
