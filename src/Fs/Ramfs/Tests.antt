-- ===== src/Fs/Ramfs/Tests.antt =====
-- Runs of fs/ramfs.c on a small disk, and the theorems at them.
use minix_rv.Prelude.{
  ℕ, ◌+◌, ◌≡◌, refl, ap, ◌∙◌, List, [], ◌∷◌, none, some, pos, arith, replicate, length-replicate,
  map,
}
use minix_rv.Fs.Base.{Inode, File, copy_text}
use minix_rv.Fs.Ramfs.{
  find_by_ino, find_by_ino_from, State, RamFile, mount, mkdir, lookup, write, read, readdir,
  dirent_of, find_file, find_file_from, add_entry, max_file_size,
}
use minix_rv.Fs.Ramfs.Valid.{IsValid, mount-IsValid, mkdir-IsValid}
use minix_rv.Fs.Ramfs.Data.{stored, write-stored, read-write}
use minix_rv.Fs.Ramfs.Keep.{write-IsValid}
use minix_rv.Fs.Ramfs.Dir.{lookup-mkdir_self}

abbrev no_file : RamFile
no_file = record {
  name = [];
  ino = 0;
  mode = 0;
  size = 0;
  buffer = none;
  capacity = 0;
  inode = none;
  parent = none;
}

abbrev no_inode : Inode
no_inode = record {
  ino = 0;
  mode = 0;
  nlink = 0;
  uid = 0;
  gid = 0;
  size = 0;
  fs_private = none;
  parent = none;
}

abbrev zeros : List ℕ
zeros = replicate max_file_size 0

-- The static state before the first mount.
unfoldable pub boot : State
boot = record {
  files = λ i. no_file;
  inodes = λ i. no_inode;
  file_buffers = λ i. zeros;
  file_count = 0;
  root_inode = none;
  next_ino = 0;
}

abbrev root_text : List ℕ
root_text = b'/' ∷ []

abbrev pub tmp : List ℕ
tmp = b't' ∷ b'm' ∷ b'p' ∷ []

unfoldable pub mounted : State
unfolding boot
mounted = (mount boot root_text root_text).1

pub mounted-IsValid : IsValid mounted
unfolding mounted boot
mounted-IsValid =
    mount-IsValid boot root_text root_text (λ i. length-replicate {A = ℕ} max_file_size 0)

unfoldable pub with_tmp : State
unfolding mounted
with_tmp = (mkdir mounted 0 tmp 0o644).1

pub with_tmp-IsValid : IsValid with_tmp
unfolding with_tmp
with_tmp-IsValid = mkdir-IsValid mounted-IsValid 0 tmp 0o644

made : mkdir mounted 0 tmp 0o644 ≡ (pos 0, with_tmp)
unfolding with_tmp mounted mkdir find_file find_file_from mount
made = refl

abbrev opened : File
opened = record { inode = some 1; pos = 0; flags = 0 }

abbrev text : List ℕ
text = b'a' ∷ b'b' ∷ b'c' ∷ []

two_files : with_tmp.file_count ≡ 2
unfolding with_tmp mounted mkdir find_file find_file_from mount add_entry
two_files = refl

mkdir-IsValid_example : IsValid (mkdir mounted 0 tmp 0o644).1
mkdir-IsValid_example = mkdir-IsValid mounted-IsValid 0 tmp 0o644

text-stored :
    write with_tmp opened text 3
    ≡ some (pos 3, stored with_tmp 1 0 text 3, record opened { pos = 0 + 3 })
text-stored =
    write-stored with_tmp-IsValid 1 (omega (arith, two_files)) opened refl text 3 (omega arith)
      (omega arith) (omega arith)

read-write_example :
    (s' : State) × (f' : File) × (write with_tmp opened text 3 ≡ some (pos 3, s', f'))
    × (read s' opened (0 ∷ 0 ∷ 0 ∷ 0 ∷ []) 3 ≡ some (pos 3, f', b'a' ∷ b'b' ∷ b'c' ∷ 0 ∷ []))
read-write_example =
    read-write with_tmp-IsValid 1 (omega (arith, two_files)) opened refl text (0 ∷ 0 ∷ 0 ∷ 0 ∷ []) 3
      (omega arith) (omega arith) (omega arith) (omega arith)

write-IsValid_example : IsValid (stored with_tmp 1 0 text 3)
write-IsValid_example =
    write-IsValid with_tmp-IsValid 1 (omega (arith, two_files)) opened refl text 3 text-stored

lookup-mkdir_self_example : lookup with_tmp (some 0) tmp ≡ some mounted.file_count
lookup-mkdir_self_example =
    lookup-mkdir_self mounted-IsValid 0 tmp 0o644 (mounted-IsValid).rooted (omega arith) made

abbrev long_name : List ℕ
long_name = replicate 64 b'x'

with_long : State
unfolding mounted
with_long = (mkdir mounted 0 long_name 0o644).1

made_long : mkdir mounted 0 long_name 0o644 ≡ (pos 0, with_long)
unfolding with_long mounted mkdir find_file find_file_from mount
made_long = refl

-- `ls /` after `mkdir /tmp`
listing : map (λ d. d.name) (readdir with_tmp (some 0) 10) ≡ tmp ∷ []
unfolding with_tmp mounted mkdir find_file find_file_from mount add_entry readdir dirent_of
    copy_text
listing = refl

pub no_tmp : lookup mounted (some 0) tmp ≡ none
unfolding mounted lookup find_by_ino find_by_ino_from find_file find_file_from mount
no_tmp = refl

pub one_file : mounted.file_count ≡ 1
unfolding mounted mount
one_file = refl

pub tmp_found : lookup with_tmp (some 0) tmp ≡ some 1
tmp_found =
    lookup-mkdir_self mounted-IsValid 0 tmp 0o644 (mounted-IsValid).rooted (omega arith) made
    ∙ ap (λ n. some n) one_file
