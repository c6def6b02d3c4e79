-- ===== src/Fs/Ramfs/Listing.antt =====
-- What `ramfs_readdir` of fs/ramfs.c returns.
use Prim.Native.Nat.{bit_and}
use minix_rv.Prelude.{
  ℕ, zero, suc, ◌%◌, ◌/◌, ◌≡◌, refl, ap, List, [], ◌∷◌, map, Option, none, some, arith, take,
  if◌then◌else◌, Bool-cases, inl, inr,
}
use minix_rv.Prelude.Bits.{bit_and_even}
use minix_rv.Fs.Base.{Dirent, s_ifmt, u8_mod, same_ptr}
use minix_rv.Fs.Ramfs.{RamFile, State, readdir, readdir_from, dirent_of}

-- The entries of a directory in the order of their slots.
pub children : (ℕ → RamFile) → Option ℕ → ℕ → ℕ → List RamFile
children files parent zero i = []
children files parent (suc n) i =
    if same_ptr (files i).parent parent
    then files i ∷ children files parent n (suc i)
    else children files parent n (suc i)

readdir_from-children :
    (files : ℕ → RamFile) (parent : Option ℕ) (n i room : ℕ)
    → readdir_from files parent n i room ≡ take room (map dirent_of (children files parent n i))
unfolding readdir_from children
readdir_from-children files parent zero i zero = refl
readdir_from-children files parent zero i (suc room) = refl
readdir_from-children files parent (suc n) i zero = refl
readdir_from-children files parent (suc n) i (suc room) =
    elim (Bool-cases (same_ptr (files i).parent parent)) [
      | inl child ↦
          rw (child, readdir_from, children)
            (ap (◌∷◌ (dirent_of (files i))) (readdir_from-children files parent n (suc i) room))
      | inr other ↦
          rw (other, readdir_from, children)
            (readdir_from-children files parent n (suc i) (suc room))
    ]

-- `ramfs_readdir` lists the first `count` entries of the directory in the order of their creation.
pub readdir-children :
    (s : State) (dir count : ℕ)
    → readdir s (some dir) count
      ≡ take count (map dirent_of (children s.files (s.inodes dir).fs_private s.file_count 0))
unfolding readdir
readdir-children s dir count =
    readdir_from-children s.files (s.inodes dir).fs_private s.file_count 0 count

low_byte : (m : ℕ) → bit_and m s_ifmt % u8_mod ≡ 0
low_byte m = omega (
  arith,
  bit_and_even m 0x7800,
  bit_and_even (m / 2) 0x3C00,
  bit_and_even (m / 2 / 2) 0x1E00,
  bit_and_even (m / 2 / 2 / 2) 0x0F00,
  bit_and_even (m / 2 / 2 / 2 / 2) 0x0780,
  bit_and_even (m / 2 / 2 / 2 / 2 / 2) 0x03C0,
  bit_and_even (m / 2 / 2 / 2 / 2 / 2 / 2) 0x01E0,
  bit_and_even (m / 2 / 2 / 2 / 2 / 2 / 2 / 2) 0x00F0,
)

-- Every entry of a listing has the kind 0.
abbrev pub AllKindZero : List Dirent → Type 0
AllKindZero [] = Unit
AllKindZero (d ∷ ds) = (d.kind ≡ 0) × AllKindZero ds

readdir_from-kind :
    (files : ℕ → RamFile) (parent : Option ℕ) (n i room : ℕ)
    → AllKindZero (readdir_from files parent n i room)
unfolding readdir_from
readdir_from-kind files parent zero i room = tt
readdir_from-kind files parent (suc n) i zero = tt
readdir_from-kind files parent (suc n) i (suc room) =
    elim (Bool-cases (same_ptr (files i).parent parent)) [
      | inl child ↦
          rw (child, readdir_from)
            (low_byte (files i).mode, readdir_from-kind files parent n (suc i) room)
      | inr other ↦ rw (other, readdir_from) (readdir_from-kind files parent n (suc i) (suc room))
    ]

-- The `type` of a directory entry is a `u8`, and the file types of vfs.h are multiples of 4096: what
-- `ramfs_readdir` stores there is 0, for directories and regular files alike.
pub readdir-kind : (s : State) (dir : Option ℕ) (count : ℕ) → AllKindZero (readdir s dir count)
unfolding readdir
readdir-kind s none count = tt
readdir-kind s (some dir) count =
    readdir_from-kind s.files (s.inodes dir).fs_private s.file_count 0 count
