-- ===== src/Fs/Ramfs/Valid.antt =====
-- The representation invariant of `ramfs_state`: every slot below `file_count` is one file with its
-- own inode and at most its own buffer, and no size exceeds what is allocated.
use minix_rv.Prelude.{
  ℕ, ◌+◌, ◌≤◌, ◌<◌, ◌≡◌, refl, ◌⊎◌, inl, inr, List, Option, none, some, arith, length, length-take,
  leb, ◌==◌, Bool-cases,
}
use minix_rv.Fs.Base.{copy_text, copy_text-take, is_some}
use minix_rv.Fs.Ramfs.{
  RamFile, State, max_files, max_file_size, mount, write_inode, mkdir, add_entry, new_file,
  new_inode, find_file,
}

-- The buffer of slot `i`, if it has one, is its own.
abbrev pub OwnBuffer : ℕ → RamFile → Type 0
OwnBuffer i rf =
    ((rf.buffer ≡ none) × (rf.capacity ≡ 0))
    ⊎ ((rf.buffer ≡ some i) × (rf.capacity ≡ max_file_size))

pub record FileOk (s : State) (i : ℕ) : Type 0 where
  pub own : OwnBuffer i (s.files i)
  pub size : (s.files i).size ≤ (s.files i).capacity
  pub inode_size : (s.inodes i).size ≤ (s.files i).size
  pub name : length (s.files i).name ≤ 63
  pub inode : (s.files i).inode ≡ some i
  pub back : (s.inodes i).fs_private ≡ some i
  pub ino : (s.files i).ino ≡ i + 1
  pub inode_ino : (s.inodes i).ino ≡ i + 1

pub record IsValid (s : State) : Type 0 where
  pub rooted : 0 < s.file_count
  pub count : s.file_count ≤ max_files
  pub next : s.next_ino ≡ s.file_count + 1
  pub root : s.root_inode ≡ some 0
  pub each : (i : ℕ) → i < s.file_count → FileOk s i
  pub buffers : (i : ℕ) → length (s.file_buffers i) ≡ max_file_size

-- `ramfs_mount` leaves a valid state with one file, the root, whatever the state was before,
-- where the static buffers have their size.
pub mount-IsValid :
    (s : State) (device point : List ℕ)
    → ((i : ℕ) → length (s.file_buffers i) ≡ max_file_size)
    → IsValid (mount s device point).1
unfolding mount
mount-IsValid s device point h = record {
  rooted = omega arith;
  count = omega arith;
  next = refl;
  root = refl;
  each = λ i lt. ground arith;
  buffers = h;
}

name_fits : (n : ℕ) (name : List ℕ) → length (copy_text n name) ≤ n
name_fits n name = rw (copy_text-take n name) (omega (arith, length-take n name))

module _ {s : State} (v : IsValid s) where
  add_entry-FileOk :
      (parent : ℕ) (name : List ℕ) (mode i : ℕ)
      → i < s.file_count + 1
      → FileOk (add_entry s parent name mode) i
  unfolding add_entry new_file new_inode
  add_entry-FileOk parent name mode i h = elim (Bool-cases (i == s.file_count)) [
    | inl e ↦ ground (arith, name_fits 63 name, v.next)
    | inr e ↦ ground (arith, v.each i)
  ]

  pub add_entry-IsValid :
      (parent : ℕ) (name : List ℕ) (mode : ℕ)
      → s.file_count < max_files
      → IsValid (add_entry s parent name mode)
  add_entry-IsValid parent name mode h = record {
    rooted = unfold add_entry in omega arith;
    count = unfold add_entry in omega arith;
    next = unfold add_entry in omega (arith, v.next, v.count);
    root = unfold add_entry in v.root;
    each = λ i lt. add_entry-FileOk parent name mode i (unfold add_entry in lt);
    buffers = unfold add_entry in v.buffers;
  }

  -- `ramfs_mkdir` keeps a state valid, on every branch and for any parent.
  pub mkdir-IsValid : (parent : ℕ) (name : List ℕ) (mode : ℕ) → IsValid (mkdir s parent name mode).1
  unfolding mkdir
  mkdir-IsValid parent name mode = elim (Bool-cases (leb max_files s.file_count)) [
    | inl full ↦ rw full v
    | inr room ↦
        rw room (elim (Bool-cases (is_some (find_file s (s.inodes parent).fs_private name))) [
          | inl old ↦ rw old v
          | inr new ↦ rw new (add_entry-IsValid parent name mode (ground arith))
        ])
  ]

  -- `ramfs_write_inode` keeps the invariant, for the inode of a live slot or for NULL.
  pub write_inode-IsValid :
      (p : Option ℕ) → ((i : ℕ) → p ≡ some i → i < s.file_count) → IsValid (write_inode s p).1
  unfolding write_inode
  write_inode-IsValid none live = v
  write_inode-IsValid (some p) live =
      rw ((v.each p (live p refl)).back, write_inode)
        (record {
          rooted = v.rooted;
          count = v.count;
          next = v.next;
          root = v.root;
          each = λ i lt. ground (arith, v.each i, v.each p (live p refl));
          buffers = v.buffers;
        })
