-- ===== src/Fs/Ramfs/Ops.antt =====
-- `ramfs_ops` of fs/ramfs.c: the RAM file system as the interface of fs/vfs.c sees it.
use minix_rv.Prelude.{ℕ, List, [], ◌∷◌, Option, none, some, ℤ}
use minix_rv.Fs.Base.{update}
use minix_rv.Fs.Vfs.Types.{FsOps, InodeStore}
use minix_rv.Fs.Ramfs
use minix_rv.Fs.Ramfs.{State}

-- `ramfs_mkdir` reads its parent's inode with no test for NULL.
abbrev mkdir_at : State → Option ℕ → List ℕ → ℕ → Option (ℤ × State)
mkdir_at s none name mode = none
mkdir_at s (some p) name mode = some (Ramfs.mkdir s p name mode)

abbrev unmount_only : State → List ℕ → ℤ × State
unmount_only s point = let (r, s', freed) = Ramfs.unmount s point in (r, s')

abbrev pub ramfs_ops : FsOps State
ramfs_ops = record {
  name = some (b'r' ∷ b'a' ∷ b'm' ∷ b'f' ∷ b's' ∷ []);
  mount = some Ramfs.mount;
  unmount = some unmount_only;
  read_inode = some Ramfs.read_inode;
  write_inode = some Ramfs.write_inode;
  read = some Ramfs.read;
  write = some Ramfs.write;
  mkdir = some mkdir_at;
  readdir = some Ramfs.readdir;
  lookup = some Ramfs.lookup;
}

-- The static array `ramfs_state.inodes`, which fs/vfs.c reaches through pointers.
abbrev pub ramfs_inodes : InodeStore State
ramfs_inodes = record {
  get = λ s p. s.inodes p;
  put = λ s p n. record s { inodes = update s.inodes p n };
}
