-- ===== src/Fs/Vfs/Tests.antt =====
-- Paths and calls of fs/vfs.c on a freshly mounted ramfs, and the theorems at them.
use minix_rv.Prelude.{ℕ, ◌<◌, ◌≡◌, refl, ap, ◌∙◌, List, [], ◌∷◌, Option, none, some, pos, arith}
use minix_rv.Fs.Base.{same_text}
use minix_rv.Fs.Ramfs.{State}
use minix_rv.Fs.Ramfs.Tests.{
  mounted, mounted-IsValid, with_tmp, tmp, no_tmp as nothing, one_file, tmp_found,
}
use minix_rv.Fs.Ramfs.Ops.{ramfs_ops, ramfs_inodes}
use minix_rv.Fs.Vfs.Types.{World}
use minix_rv.Fs.Vfs.Path.{slash, walk, lookup_path, step_component}
use minix_rv.Fs.Vfs.Path.Walk.{render, resolve, walk-resolve, walk_total, lookup_path_total}
use minix_rv.Fs.Vfs.Path.Single.{RootOnly, IsPlain, lookup_path-plain}
use minix_rv.Fs.Vfs.Calls.{mkdir, lookup_inode}
use minix_rv.Fs.Vfs.Calls.OnRamfs.{lookup_path-mkdir}

-- The tables once `s` is mounted on "/".
abbrev with_ramfs : State → World State
with_ramfs s = record {
  fs = s;
  fs_types = λ i. some ramfs_ops;
  num_fs_types = 1;
  mount_table = λ i. record { path = slash ∷ []; device = []; root = some 0; ops = ramfs_ops };
  num_mounts = 1;
}

with_ramfs-RootOnly : (s : State) → RootOnly (with_ramfs s) ramfs_ops 0
with_ramfs-RootOnly s = record { one = refl; path = refl; root = refl; ops = refl }

tmp-IsPlain : IsPlain tmp
unfolding same_text
tmp-IsPlain = record {
  is = (
    omega arith,
    omega arith,
    ((λ e. omega (arith, e)), ((λ e. omega (arith, e)), ((λ e. omega (arith, e)), tt))),
  );
  not_dot = refl;
  not_dot_dot = refl;
}

no_tmp : lookup_path ramfs_inodes (with_ramfs mounted) (slash ∷ tmp) ≡ some none
unfolding step_component
no_tmp =
    lookup_path-plain (with_ramfs-RootOnly mounted) ramfs_inodes tmp-IsPlain
    ∙ rw (tmp-IsPlain.not_dot) (rw (tmp-IsPlain.not_dot_dot) (ap (λ o. some o) nothing))

room : mounted.file_count < 256
room = omega (arith, one_file)

lookup_path-mkdir_example :
    (w' : World State) × (mkdir ramfs_inodes (with_ramfs mounted) (slash ∷ tmp) 0o644
      ≡ some (pos 0, w'))
    × (lookup_path ramfs_inodes w' (slash ∷ tmp) ≡ some (some mounted.file_count))
lookup_path-mkdir_example =
    lookup_path-mkdir (with_ramfs mounted) (with_ramfs-RootOnly mounted) mounted-IsValid tmp 0o644
      tmp-IsPlain (omega arith) room no_tmp

-- "//tmp/"
abbrev slashes : List (ℕ × List ℕ)
slashes = (2, tmp) ∷ []

walk-resolve_example :
    walk ramfs_inodes 10 ramfs_ops with_tmp 0 (render 1 slashes)
    ≡ some (resolve ramfs_inodes ramfs_ops with_tmp 0 (tmp ∷ []))
walk-resolve_example =
    walk-resolve ramfs_inodes ramfs_ops with_tmp 10 0 1 slashes (tmp-IsPlain.is, tt) (omega arith)

walk_total_example : (r : Option ℕ) × (walk ramfs_inodes 4 ramfs_ops with_tmp 0 tmp ≡ some r)
walk_total_example = walk_total ramfs_inodes ramfs_ops with_tmp 4 0 tmp (omega arith)

lookup_path_total_example :
    (r : Option ℕ) × (lookup_path ramfs_inodes (with_ramfs with_tmp) (slash ∷ tmp) ≡ some r)
lookup_path_total_example = lookup_path_total ramfs_inodes (with_ramfs with_tmp) (slash ∷ tmp)

found : lookup_inode ramfs_inodes (with_ramfs with_tmp) (slash ∷ tmp) ≡ some 1
unfolding lookup_inode step_component
found =
    rw (lookup_path-plain (with_ramfs-RootOnly with_tmp) ramfs_inodes tmp-IsPlain, lookup_inode)
      (rw (tmp-IsPlain.not_dot) (rw (tmp-IsPlain.not_dot_dot) tmp_found))
