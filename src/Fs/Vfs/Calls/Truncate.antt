-- ===== src/Fs/Vfs/Calls/Truncate.antt =====
-- `O_TRUNC` in `vfs_open` of fs/vfs.c.
use minix_rv.Prelude.{ℕ, ◌≡◌, refl, List, true, some, arith, Bool-cases, inl, inr}
use minix_rv.Fs.Base.{File, is_some}
use minix_rv.Fs.Ramfs.{State}
use minix_rv.Fs.Ramfs.Ops.{ramfs_inodes}
use minix_rv.Fs.Vfs.Types.{World, InodeStore}
use minix_rv.Fs.Vfs.Mounts.Longest.{find_mount-nil}
use minix_rv.Fs.Vfs.Calls.{truncate, vfs_open, finish_open, lookup_inode, has_flag, o_trunc}

-- The mount of the empty path is never there, so only the inode is changed.
truncate-put :
    {S : Type 0} (inodes : InodeStore S) (w : World S) (p : ℕ)
    → truncate inodes w p
      ≡ record w { fs = inodes.put w.fs p (record (inodes.get w.fs p) { size = 0 }) }
unfolding truncate
truncate-put inodes w p = elim (Bool-cases (is_some (inodes.get w.fs p).fs_private)) [
  | inl here ↦ rw here (rw (find_mount-nil w, truncate) refl)
  | inr gone ↦ rw gone refl
]

-- Opening an existing file with `O_TRUNC` sets the size in its inode to 0, and does not reach the
-- file system: the entries of ramfs, with the sizes that its reads go by, and its buffers stay.
pub open-truncate :
    (w : World State) (path : List ℕ) (flags p : ℕ)
    → lookup_inode ramfs_inodes w path ≡ some p
    → has_flag flags o_trunc ≡ true
    → (f : File) × (w' : World State) × (vfs_open ramfs_inodes true w path flags
        ≡ some (some f, w'))
      × (f.inode ≡ some p)
      × ((w'.fs.inodes p).size ≡ 0)
      × (w'.fs.files ≡ w.fs.files)
      × (w'.fs.file_buffers ≡ w.fs.file_buffers)
unfolding vfs_open
open-truncate w path flags p e t = (
  (finish_open ramfs_inodes w p flags).0,
  record w { fs = ramfs_inodes.put w.fs p (record (ramfs_inodes.get w.fs p) { size = 0 }) },
  ground (arith, truncate-put ramfs_inodes w p),
  refl,
  ground arith,
  refl,
  refl,
)
