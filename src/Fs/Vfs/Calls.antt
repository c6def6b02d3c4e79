-- ===== src/Fs/Vfs/Calls.antt =====
-- The calls on files and directories of fs/vfs.c. What `kmalloc` answers in `vfs_open` is an argument.
-- An outer `none` is a memory fault inside a file system.
pub mod Truncate
pub mod OnRamfs
use Prim.Native.Nat.{bit_and, bit_or}
use minix_rv.Prelude.{
  ℕ, zero, suc, ◌+◌, List, [], ◌∷◌, Bool, true, false, ◌&&◌, ◌||◌, not, Option, none, some, ℤ, pos,
  minus_one, is_negative, length, take, drop, ltb, ◌==◌, if◌then◌else◌,
}
use minix_rv.Fs.Base.{Inode, File, Dirent, s_ifreg, is_some, copy_text}
use minix_rv.Fs.Vfs.Types.{FsOps, InodeStore, Mount, World}
use minix_rv.Fs.Vfs.Mounts.{find_mount}
use minix_rv.Fs.Vfs.Path.{slash, skip_slashes, lookup_path}

abbrev pub o_append : ℕ
o_append = 0x8

abbrev pub o_creat : ℕ
o_creat = 0x100

abbrev pub o_trunc : ℕ
o_trunc = 0x200

-- `~S_IFMT` as an `unsigned int`
abbrev pub not_s_ifmt : ℕ
not_s_ifmt = 0xFFFF0FFF

-- `flags & bit`
abbrev pub has_flag : ℕ → ℕ → Bool
has_flag flags bit = not (bit_and flags bit == 0)

-- `for (p = path; *p; p++) if (*p == '/') last_slash = p;`, as an index.
last_slash_from : List ℕ → ℕ → Option ℕ → Option ℕ
last_slash_from [] i last = last
last_slash_from (c ∷ p) i last = last_slash_from p (suc i) (if c == slash then some i else last)

unfoldable pub last_slash : List ℕ → Option ℕ
unfolding last_slash_from
last_slash path = last_slash_from path 0 none

-- Where a new entry goes: the parent's inode, which may be NULL, and the name.
pub record Target : Type 0 where
  pub parent : Option ℕ
  pub name : List ℕ

module _ {S : Type 0} (inodes : InodeStore S) where
  -- `vfs_lookup_path`, whose loop ends.
  unfoldable pub lookup_inode : World S → List ℕ → Option ℕ
  lookup_inode w path = elim (lookup_path inodes w path) [ none ↦ none | some r ↦ r ]

  -- A slash that is not the first character: the parent is looked up.
  target_below : World S → List ℕ → ℕ → Option Target
  target_below w path i = elim (lookup_inode w (copy_text 255 (take i path))) [
    | none ↦ none
    | some p ↦ some (record { parent = some p; name = copy_text 255 (drop (suc i) path) })
  ]

  target_in_root : Mount S → List ℕ → Target
  target_in_root m path = record { parent = m.root; name = copy_text 255 (skip_slashes path) }

  -- The parent directory and the name in it; `none` where the parent is not found.
  unfoldable pub target : World S → Mount S → List ℕ → Option Target
  unfolding target_below target_in_root last_slash lookup_inode
  target w m path = elim (last_slash path) [
    | none ↦ some (target_in_root m path)
    | some zero ↦ some (target_in_root m path)
    | some (suc i) ↦ target_below w path (suc i)
  ]

  -- `mkdir(parent_inode, name, mode)` of the mount's file system, if it has one.
  call_mkdir : World S → FsOps S → Option Target → ℕ → Option (ℤ × World S)
  call_mkdir w ops none mode = some (minus_one, w)
  call_mkdir w ops (some t) mode = elim ops.mkdir [
    | none ↦ some (minus_one, w)
    | some make ↦ elim (make w.fs t.parent t.name mode) [
      | none ↦ none
      | some (r, fs) ↦ some (r, record w { fs = fs })
    ]
  ]

  unfoldable pub mkdir : World S → List ℕ → ℕ → Option (ℤ × World S)
  unfolding target call_mkdir
  mkdir w path mode = elim (find_mount w path) [
    | none ↦ some (minus_one, w)
    | some i ↦
        if is_some (w.mount_table i).ops.mkdir
        then call_mkdir w (w.mount_table i).ops (target w (w.mount_table i) path) mode
        else some (minus_one, w)
  ]

  -- What is left of the mode once the entry is a regular file.
  as_regular : World S → ℕ → World S
  as_regular w p = record w {
    fs = inodes.put w.fs p (record (inodes.get w.fs p) {
      mode = bit_or (bit_and (inodes.get w.fs p).mode not_s_ifmt) s_ifreg;
    });
  }

  -- The new inode, made by `mkdir` and then turned into a regular file.
  created : List ℕ → ℤ × World S → Option ℕ × World S
  unfolding as_regular
  created path (r, w) =
      if is_negative r
      then (none, w)
      else elim (lookup_inode w path) [ none ↦ (none, w) | some p ↦ (some p, as_regular w p) ]

  create_entry : World S → List ℕ → Option (Option ℕ × World S)
  unfolding created call_mkdir
  create_entry w path = elim (find_mount w path) [
    | none ↦ some (none, w)
    | some i ↦ elim (target w (w.mount_table i) path) [
      | none ↦ some (none, w)
      | some t ↦
          if is_some (w.mount_table i).ops.mkdir
          then (elim (call_mkdir w (w.mount_table i).ops (some t) 0o644) [
            | none ↦ none
            | some made ↦ some (created path made)
          ])
          else some (none, w)
    ]
  ]

  -- The inode of the path, created if it is missing and `O_CREAT` is given.
  open_inode : World S → List ℕ → ℕ → Option (Option ℕ × World S)
  unfolding create_entry
  open_inode w path flags = elim (lookup_inode w path) [
    | some p ↦ some (some p, w)
    | none ↦ if has_flag flags o_creat then create_entry w path else some (none, w)
  ]

  -- `inode->size = 0`, and the file system told through the mount of the empty path.
  unfoldable pub truncate : World S → ℕ → World S
  truncate w p =
      let fs = inodes.put w.fs p (record (inodes.get w.fs p) { size = 0 }) in
      let cut = record w { fs = fs } in
      if is_some (inodes.get w.fs p).fs_private
      then (elim (find_mount w []) [
        | none ↦ cut
        | some i ↦ elim (w.mount_table i).ops.write_inode [
          | none ↦ cut
          | some put ↦ record w { fs = (put fs (some p)).1 }
        ]
      ])
      else cut

  -- The file that `vfs_open` fills in for an inode, and the truncation.
  finish_open : World S → ℕ → ℕ → File × World S
  unfolding truncate
  finish_open w p flags = (
    record {
      inode = some p;
      pos = if has_flag flags o_append then (inodes.get w.fs p).size else 0;
      flags = flags;
    },
    if has_flag flags o_trunc then truncate w p else w,
  )

  -- `allocated` is whether `kmalloc` gave the memory for the file.
  unfoldable pub vfs_open : Bool → World S → List ℕ → ℕ → Option (Option File × World S)
  unfolding open_inode finish_open
  vfs_open allocated w path flags = elim (open_inode w path flags) [
    | none ↦ none
    | some (none, w') ↦ some (none, w')
    | some (some p, w') ↦
        if allocated
        then (let (f, w'') = finish_open w' p flags in some (some f, w''))
        else some (none, w')
  ]

  -- The mount of "/", through which every file is read and written, for a file with private data.
  file_mount : World S → File → Option ℕ
  file_mount w f = elim f.inode [
    | none ↦ none
    | some p ↦ if is_some (inodes.get w.fs p).fs_private then find_mount w (slash ∷ []) else none
  ]

  unfoldable pub vfs_read : World S → File → List ℕ → ℕ → Option (ℤ × File × List ℕ)
  unfolding file_mount
  vfs_read w f buf count = elim (file_mount w f) [
    | none ↦ some (minus_one, f, buf)
    | some i ↦ elim (w.mount_table i).ops.read [
      | none ↦ some (minus_one, f, buf)
      | some get ↦ get w.fs f buf count
    ]
  ]

  unfoldable pub vfs_write : World S → File → List ℕ → ℕ → Option (ℤ × World S × File)
  unfolding file_mount
  vfs_write w f buf count = elim (file_mount w f) [
    | none ↦ some (minus_one, w, f)
    | some i ↦ elim (w.mount_table i).ops.write [
      | none ↦ some (minus_one, w, f)
      | some put ↦ elim (put w.fs f buf count) [
        | none ↦ none
        | some (r, fs, f') ↦ some (r, record w { fs = fs }, f')
      ]
    ]
  ]

  -- `none` is the -1.
  unfoldable pub vfs_readdir : World S → List ℕ → ℕ → Option (List Dirent)
  unfolding lookup_inode
  vfs_readdir w path count = elim (lookup_inode w path) [
    | none ↦ none
    | some p ↦ elim (find_mount w path) [
      | none ↦ none
      | some i ↦ elim (w.mount_table i).ops.readdir [
        | none ↦ none
        | some list ↦ some (list w.fs (some p) count)
      ]
    ]
  ]
