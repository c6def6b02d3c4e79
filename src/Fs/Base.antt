-- ===== src/Fs/Base.antt =====
-- What include/minix/vfs.h declares, and the loops on text that the files under fs/ repeat.
-- A pointer into an array is the index, NULL is `none`. The text of a C string is the list of the
-- characters before its NUL.
use minix_rv.Prelude.{
  ℕ, zero, suc, ◌^◌, ◌≡◌, refl, ap, ◌↔◌, List, [], ◌∷◌, Bool, true, false, Option, none, some,
  arith, take, ◌==◌, if◌then◌else◌,
}

-- `inode_t`. The times, `blksize`, `blocks` and `next` are never read.
pub record Inode : Type 0 where
  pub ino : ℕ
  pub mode : ℕ
  pub nlink : ℕ
  pub uid : ℕ
  pub gid : ℕ
  pub size : ℕ
  pub fs_private : Option ℕ
  pub parent : Option ℕ

-- `file_t`. `private` is never read.
pub record File : Type 0 where
  pub inode : Option ℕ
  pub pos : ℕ
  pub flags : ℕ

-- `dirent_t`; `kind` is its `type`, a `u8`.
pub record Dirent : Type 0 where
  pub ino : ℕ
  pub reclen : ℕ
  pub kind : ℕ
  pub name : List ℕ

-- `sizeof(dirent_t)`
abbrev pub dirent_size : ℕ
dirent_size = 272

abbrev pub s_ifmt : ℕ
s_ifmt = 0xF000

abbrev pub s_ifreg : ℕ
s_ifreg = 0x8000

abbrev pub s_ifdir : ℕ
s_ifdir = 0x4000

abbrev pub dir_mode : ℕ
dir_mode = 0o755

abbrev pub u64_mod : ℕ
u64_mod = 2 ^ 64

abbrev pub u32_mod : ℕ
u32_mod = 2 ^ 32

abbrev pub u8_mod : ℕ
u8_mod = 2 ^ 8

-- A write to one slot of an array.
abbrev pub update {ℓ} : {A : Type ℓ} → (ℕ → A) → ℕ → A → ℕ → A
update a i v j = if i == j then v else a j

-- `p == q` of two pointers
abbrev pub same_ptr : Option ℕ → Option ℕ → Bool
same_ptr none none = true
same_ptr none (some j) = false
same_ptr (some i) none = false
same_ptr (some i) (some j) = i == j

abbrev pub is_some {ℓ} : {A : Type ℓ} → Option A → Bool
is_some none = false
is_some (some a) = true

-- `while (*a && *b && *a == *b) { a++; b++; }`, then whether both stand at their NUL.
unfoldable pub same_text : List ℕ → List ℕ → Bool
same_text [] [] = true
same_text [] (b ∷ t) = false
same_text (a ∷ s) [] = false
same_text (a ∷ s) (b ∷ t) = if a == b then same_text s t else false

-- `while (*src && i < max) { *dst++ = *src++; i++; } *dst = '\0';`
unfoldable pub copy_text : ℕ → List ℕ → List ℕ
copy_text zero s = []
copy_text (suc max) [] = []
copy_text (suc max) (c ∷ s) = c ∷ copy_text max s

pub same_text_iff : (s t : List ℕ) → (same_text s t ≡ true) ↔ (s ≡ t)
unfolding same_text
same_text_iff [] [] = (λ _. refl, λ _. refl)
same_text_iff [] (b ∷ t) = ground arith
same_text_iff (a ∷ s) [] = ground arith
same_text_iff (a ∷ s) (b ∷ t) =
    let ih = same_text_iff s t in (λ e. ground (arith, ih.0), λ e. ground (arith, ih.1))

pub same_text_refl : (s : List ℕ) → same_text s s ≡ true
same_text_refl s = (same_text_iff s s).1 refl

pub same_ptr_iff : (p q : Option ℕ) → (same_ptr p q ≡ true) ↔ (p ≡ q)
same_ptr_iff none none = ground arith
same_ptr_iff none (some j) = ground arith
same_ptr_iff (some i) none = ground arith
same_ptr_iff (some i) (some j) = ground arith

pub copy_text-take : (n : ℕ) (s : List ℕ) → copy_text n s ≡ take n s
unfolding copy_text
copy_text-take zero s = refl
copy_text-take (suc n) [] = refl
copy_text-take (suc n) (c ∷ s) = ap (◌∷◌ c) (copy_text-take n s)
