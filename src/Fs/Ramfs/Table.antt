-- ===== src/Fs/Ramfs/Table.antt =====
-- The state of fs/ramfs.c, the search for entries, and mounting.
use Prim.Native.Nat.{bit_or}
use minix_rv.Prelude.{
  ℕ, zero, suc, List, [], ◌∷◌, ◌++◌, ◌&&◌, Option, none, some, ℤ, pos, ◌==◌, if◌then◌else◌,
}
use minix_rv.Fs.Base.{Inode, s_ifdir, dir_mode, update, same_ptr, same_text}

abbrev pub max_files : ℕ
max_files = 256

abbrev pub max_file_size : ℕ
max_file_size = 4096

-- `ramfs_file_t`. `data` is the index of the static buffer that it points to; `next` is never read.
pub record RamFile : Type 0 where
  pub name : List ℕ
  pub ino : ℕ
  pub mode : ℕ
  pub size : ℕ
  pub buffer : Option ℕ
  pub capacity : ℕ
  pub inode : Option ℕ
  pub parent : Option ℕ

pub record State : Type 0 where
  pub files : ℕ → RamFile
  pub inodes : ℕ → Inode
  pub file_buffers : ℕ → List ℕ
  pub file_count : ℕ
  pub root_inode : Option ℕ
  pub next_ino : ℕ

-- The loop of `ramfs_find_file`, with `n` slots left from slot `i` on.
unfoldable pub find_file_from : (ℕ → RamFile) → Option ℕ → List ℕ → ℕ → ℕ → Option ℕ
find_file_from files parent name zero i = none
find_file_from files parent name (suc n) i =
    let rest = find_file_from files parent name n (suc i) in
    if same_ptr (files i).parent parent && same_text (files i).name name then some i else rest

unfoldable pub find_file : State → Option ℕ → List ℕ → Option ℕ
unfolding find_file_from
find_file s parent name = find_file_from s.files parent name s.file_count 0

unfoldable pub find_by_ino_from : (ℕ → RamFile) → ℕ → ℕ → ℕ → Option ℕ
find_by_ino_from files ino zero i = none
find_by_ino_from files ino (suc n) i =
    let rest = find_by_ino_from files ino n (suc i) in if (files i).ino == ino then some i else rest

unfoldable pub find_by_ino : State → ℕ → Option ℕ
unfolding find_by_ino_from
find_by_ino s ino = find_by_ino_from s.files ino s.file_count 0

abbrev root_file : RamFile
root_file = record {
  name = b'/' ∷ [];
  ino = 1;
  mode = bit_or s_ifdir dir_mode;
  size = 0;
  buffer = none;
  capacity = 0;
  inode = some 0;
  parent = none;
}

abbrev root_dir : Inode
root_dir = record {
  ino = 1;
  mode = bit_or s_ifdir dir_mode;
  nlink = 2;
  uid = 0;
  gid = 0;
  size = 0;
  fs_private = some 0;
  parent = none;
}

-- `device` and `mount_point` are only logged.
unfoldable pub mount : State → List ℕ → List ℕ → ℤ × State
mount s device mount_point = (
  pos 0,
  record s {
    files = update s.files 0 root_file;
    inodes = update s.inodes 0 root_dir;
    file_count = 1;
    root_inode = some 0;
    next_ino = 2;
  },
)

-- A pointer that `unmount` hands to `kfree`.
pub data Freed : Type 0 where
  buffer inode : ℕ → Freed

unfoldable pub free_ptr : (ℕ → Freed) → Option ℕ → List Freed
free_ptr c none = []
free_ptr c (some i) = c i ∷ []

unfoldable pub freed_from : (ℕ → RamFile) → ℕ → ℕ → List Freed
unfolding free_ptr
freed_from files zero i = []
freed_from files (suc n) i =
    free_ptr buffer (files i).buffer
    ++ (free_ptr inode (files i).inode ++ freed_from files n (suc i))

unfoldable pub unmount : State → List ℕ → ℤ × State × List Freed
unfolding freed_from
unmount s mount_point = (
  pos 0,
  record s { root_inode = none },
  freed_from s.files s.file_count 0 ++ free_ptr inode s.root_inode,
)
