-- ===== src/Fs/Vfs/Types.antt =====
-- `fs_ops_t`, the interface between fs/vfs.c and a file system, and the static tables of fs/vfs.c.
use minix_rv.Prelude.{ℕ, List, Option, ℤ}
use minix_rv.Fs.Base.{Inode, File, Dirent}

-- The operations of one file system over the kernel's memory `S`. An operation that is NULL is
-- `none`; a memory fault inside an operation is a `none` result. `delete_inode`, `open`, `close`,
-- `seek` and `rmdir` are never called.
pub record FsOps (S : Type 0) : Type 0 where
  pub name : Option (List ℕ)
  pub mount : Option (S → List ℕ → List ℕ → ℤ × S)
  pub unmount : Option (S → List ℕ → ℤ × S)
  pub read_inode : Option (S → ℕ → Option ℕ)
  pub write_inode : Option (S → Option ℕ → ℤ × S)
  pub read : Option (S → File → List ℕ → ℕ → Option (ℤ × File × List ℕ))
  pub write : Option (S → File → List ℕ → ℕ → Option (ℤ × S × File))
  pub mkdir : Option (S → Option ℕ → List ℕ → ℕ → Option (ℤ × S))
  pub readdir : Option (S → Option ℕ → ℕ → List Dirent)
  pub lookup : Option (S → Option ℕ → List ℕ → Option ℕ)

-- How the memory `S` holds the inodes that fs/vfs.c reads and writes through their pointers.
pub record InodeStore (S : Type 0) : Type 0 where
  pub get : S → ℕ → Inode
  pub put : S → ℕ → Inode → S

-- `mount_point_t`. `fstype` is never read.
pub record Mount (S : Type 0) : Type 0 where
  pub path : List ℕ
  pub device : List ℕ
  pub root : Option ℕ
  pub ops : FsOps S

-- The static tables, and the memory of the file systems.
pub record World (S : Type 0) : Type 0 where
  pub fs : S
  pub fs_types : ℕ → Option (FsOps S)
  pub num_fs_types : ℕ
  pub mount_table : ℕ → Mount S
  pub num_mounts : ℕ
