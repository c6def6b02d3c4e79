-- ===== src/Fs/Vfs/Mounts/Tests.antt =====
-- The tables of fs/vfs.c with "/" and "/dev" mounted, and the theorems at them.
use minix_rv.Fs.Base.{same_text}
use minix_rv.Prelude.{ℕ, zero, suc, ◌≡◌, refl, List, [], ◌∷◌, none, some, pos}
use minix_rv.Fs.Vfs.Types.{FsOps, Mount, World}
use minix_rv.Fs.Vfs.Mounts.{
  find_mount, unmount, mount, find_path_from, find_best, improve, match_mount,
}
use minix_rv.Fs.Vfs.Mounts.Longest.{IsLongest, find_mount-IsLongest, find_mount-nil}
use minix_rv.Fs.Vfs.Mounts.Table.{MountResult, mount-MountResult}

abbrev no_ops : FsOps Unit
no_ops = record {
  name = none;
  mount = none;
  unmount = none;
  read_inode = none;
  write_inode = none;
  read = none;
  write = none;
  mkdir = none;
  readdir = none;
  lookup = none;
}

abbrev root_path : List ℕ
root_path = b'/' ∷ []

abbrev dev : List ℕ
dev = b'/' ∷ b'd' ∷ b'e' ∷ b'v' ∷ []

abbrev table : ℕ → Mount Unit
table zero = record { path = root_path; device = []; root = some 0; ops = no_ops }
table (suc n) = record { path = dev; device = []; root = some 1; ops = no_ops }

abbrev two : World Unit
two = record {
  fs = tt;
  fs_types = λ i. none;
  num_fs_types = 0;
  mount_table = table;
  num_mounts = 2;
}

-- "/devices" counts as below "/dev".
not_a_boundary : find_mount two (b'/' ∷ b'd' ∷ b'e' ∷ b'v' ∷ b's' ∷ []) ≡ some 1
unfolding find_mount find_best improve match_mount
not_a_boundary = refl

find_mount-IsLongest_example : IsLongest two dev (find_mount two dev)
find_mount-IsLongest_example = find_mount-IsLongest two dev

find_mount-nil_example : find_mount two [] ≡ none
find_mount-nil_example = find_mount-nil two

one_left : World Unit
one_left = (unmount two root_path).1

left : unmount two root_path ≡ (pos 0, one_left)
unfolding one_left unmount find_path_from same_text
left = refl

mount-MountResult_example : MountResult two dev (mount two [] dev dev).0 (mount two [] dev dev).1
mount-MountResult_example = mount-MountResult two [] dev dev
