-- ===== src/Fs/Ramfs.antt =====
-- The RAM file system, fs/ramfs.c. `State` is its static `ramfs_state`, an array a function from
-- indices. The calls of `early_puts`, which only log, are left out. A `memcpy` past the end of a
-- buffer is a fault, `none`.
mod Table
pub mod Valid
pub mod Data
pub mod Keep
pub mod Dir
pub mod Listing
pub mod Ops
pub mod Tests
unfoldable pub use Table.*
use Prim.Native.Nat.{bit_and, bit_or}
use minix_rv.Prelude.{
  ℕ, zero, suc, ◌+◌, ◌-◌, ◌%◌, List, [], ◌∷◌, ◌++◌, Bool, true, false, ◌&&◌, Option, none, some, ℤ,
  pos, minus_one, take, drop, ltb, leb, ◌==◌, if◌then◌else◌,
}
use minix_rv.Str.{memcpy}
use minix_rv.Fs.Base.{
  Inode, File, Dirent, dirent_size, s_ifmt, s_ifdir, dir_mode, u64_mod, u32_mod, u8_mod, update,
  same_ptr, is_some, same_text, copy_text,
}

unfoldable pub read_inode : State → ℕ → Option ℕ
unfolding find_by_ino
read_inode s ino =
    if ino == 1
    then s.root_inode
    else elim (find_by_ino s ino) [ none ↦ none | some i ↦ (s.files i).inode ]

unfoldable pub write_inode : State → Option ℕ → ℤ × State
write_inode s none = (minus_one, s)
write_inode s (some p) = elim (s.inodes p).fs_private [
  | none ↦ (minus_one, s)
  | some i ↦ (
    pos 0,
    record s {
      files =
          update s.files i
            (record (s.files i) { mode = (s.inodes p).mode; size = (s.inodes p).size % u32_mod });
    },
  )
]

unfoldable pub lookup : State → Option ℕ → List ℕ → Option ℕ
unfolding find_file
lookup s none name = none
lookup s (some dir) name = elim (find_file s (s.inodes dir).fs_private name) [
  | none ↦ none
  | some i ↦ (s.files i).inode
]

-- How many bytes `ramfs_read` copies from a file of `size` bytes.
abbrev pub to_read : ℕ → ℕ → ℕ → ℕ
to_read size at count = if ltb size ((at + count) % u64_mod) then size - at else count

read_data : RamFile → List ℕ → File → List ℕ → ℕ → Option (ℤ × File × List ℕ)
read_data rf content f buf count =
    if leb rf.size f.pos
    then some (pos 0, f, buf)
    else elim (memcpy buf (drop f.pos content) (to_read rf.size f.pos count)) [
      | none ↦ none
      | some out ↦ some (
        pos (to_read rf.size f.pos count),
        record f { pos = (f.pos + to_read rf.size f.pos count) % u64_mod },
        out,
      )
    ]

read_entry : State → Option ℕ → File → List ℕ → ℕ → Option (ℤ × File × List ℕ)
unfolding read_data
read_entry s none f buf count = some (pos 0, f, buf)
read_entry s (some i) f buf count = elim (s.files i).buffer [
  | none ↦ some (pos 0, f, buf)
  | some b ↦ read_data (s.files i) (s.file_buffers b) f buf count
]

-- The result, the file with its new position, and the caller's buffer.
unfoldable pub read : State → File → List ℕ → ℕ → Option (ℤ × File × List ℕ)
unfolding read_entry
read s f buf count = elim f.inode [
  | none ↦ some (minus_one, f, buf)
  | some p ↦ read_entry s (s.inodes p).fs_private f buf count
]

-- `rf->data = file_buffers[i]` where `data` is NULL
attach_buffer : ℕ → RamFile → Option ℕ → RamFile
attach_buffer i rf none = record rf { buffer = some i; capacity = max_file_size }
attach_buffer i rf (some b) = rf

-- The `if` that makes room for `new_size` bytes; `none` is its `return -1`.
reserve : ℕ → RamFile → ℕ → Option RamFile
unfolding attach_buffer
reserve i rf new_size =
    if ltb rf.capacity new_size
    then (if leb max_files i then none else some (attach_buffer i rf rf.buffer))
    else some rf

-- `memcpy((char *)rf->data + file->pos, buf, count)`
copy_in : (ℕ → List ℕ) → Option ℕ → ℕ → List ℕ → ℕ → Option (ℕ → List ℕ)
copy_in buffers none at buf zero = some buffers
copy_in buffers none at buf (suc n) = none
copy_in buffers (some b) at buf n = elim (memcpy (drop at (buffers b)) buf n) [
  | none ↦ none
  | some rest ↦ some (update buffers b (take at (buffers b) ++ rest))
]

-- The size that the file has when the write ended at `end`.
abbrev pub grown : ℕ → ℕ → ℕ
grown size end = if ltb size end then end % u32_mod else size

-- `inode->size` follows only where the file grew.
abbrev pub grown_inode : Inode → ℕ → ℕ → Inode
grown_inode n size end = if ltb size end then record n { size = end % u32_mod } else n

pub write_data : State → File → ℕ → ℕ → List ℕ → ℕ → Option RamFile → Option (ℤ × State × File)
unfolding copy_in
write_data s f p i buf count none = some (minus_one, s, f)
write_data s f p i buf count (some rf) =
    let end = (f.pos + count) % u64_mod in
    elim (copy_in s.file_buffers rf.buffer f.pos buf count) [
      | none ↦ none
      | some buffers ↦ some (
        pos count,
        record s {
          files = update s.files i (record rf { size = grown rf.size end });
          inodes = update s.inodes p (grown_inode (s.inodes p) rf.size end);
          file_buffers = buffers;
        },
        record f { pos = end },
      )
    ]

-- `new_size` is a `u32`.
abbrev pub new_size : ℕ → ℕ → ℕ
new_size at count = (at + count) % u64_mod % u32_mod

pub write_entry : State → File → ℕ → Option ℕ → List ℕ → ℕ → Option (ℤ × State × File)
unfolding write_data reserve
write_entry s f p none buf count = some (minus_one, s, f)
write_entry s f p (some i) buf count =
    if ltb max_file_size (new_size f.pos count)
    then some (minus_one, s, f)
    else write_data s f p i buf count (reserve i (s.files i) (new_size f.pos count))

-- The result, the state, and the file with its new position.
unfoldable pub write : State → File → List ℕ → ℕ → Option (ℤ × State × File)
unfolding write_entry
write s f buf count = elim f.inode [
  | none ↦ some (minus_one, s, f)
  | some p ↦ write_entry s f p (s.inodes p).fs_private buf count
]

new_file : State → Option ℕ → List ℕ → ℕ → RamFile
new_file s parent name mode = record {
  name = copy_text 63 name;
  ino = s.next_ino;
  mode = bit_or s_ifdir mode;
  size = 0;
  buffer = none;
  capacity = 0;
  inode = some s.file_count;
  parent = parent;
}

new_inode : State → ℕ → ℕ → Inode
new_inode s parent mode = record {
  ino = s.next_ino;
  mode = bit_or s_ifdir mode;
  nlink = 2;
  uid = 0;
  gid = 0;
  size = 0;
  fs_private = some s.file_count;
  parent = some parent;
}

-- `parent->nlink++`
abbrev pub link : (ℕ → Inode) → ℕ → ℕ → Inode
link inodes p = update inodes p (record (inodes p) { nlink = ((inodes p).nlink + 1) % u32_mod })

pub add_entry : State → ℕ → List ℕ → ℕ → State
unfolding new_file new_inode
add_entry s parent name mode = record s {
  files = update s.files s.file_count (new_file s (s.inodes parent).fs_private name mode);
  inodes = link (update s.inodes s.file_count (new_inode s parent mode)) parent;
  file_count = s.file_count + 1;
  next_ino = (s.next_ino + 1) % u64_mod;
}

unfoldable pub mkdir : State → ℕ → List ℕ → ℕ → ℤ × State
unfolding add_entry
mkdir s parent name mode =
    if leb max_files s.file_count
    then (minus_one, s)
    else if is_some (find_file s (s.inodes parent).fs_private name)
    then (minus_one, s)
    else (pos 0, add_entry s parent name mode)

-- `type` is a `u8`, so the value is cut to its low 8 bits.
pub dirent_of : RamFile → Dirent
dirent_of rf = record {
  ino = rf.ino;
  reclen = dirent_size;
  kind = bit_and rf.mode s_ifmt % u8_mod;
  name = copy_text 255 rf.name;
}

-- The loop of `ramfs_readdir`: `n` slots left from `i` on, and room for `room` more entries.
readdir_from : (ℕ → RamFile) → Option ℕ → ℕ → ℕ → ℕ → List Dirent
unfolding dirent_of
readdir_from files parent zero i room = []
readdir_from files parent (suc n) i zero = []
readdir_from files parent (suc n) i (suc room) =
    let taken = dirent_of (files i) ∷ readdir_from files parent n (suc i) room in
    let skipped = readdir_from files parent n (suc i) (suc room) in
    if same_ptr (files i).parent parent then taken else skipped

-- The entries written; the function returns their number. A `count` below 0 writes none.
unfoldable pub readdir : State → Option ℕ → ℕ → List Dirent
unfolding readdir_from
readdir s none count = []
readdir s (some dir) count = readdir_from s.files (s.inodes dir).fs_private s.file_count 0 count
