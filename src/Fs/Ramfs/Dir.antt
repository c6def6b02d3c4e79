-- ===== src/Fs/Ramfs/Dir.antt =====
-- Directories of fs/ramfs.c: what `ramfs_lookup` and `ramfs_readdir` see after `ramfs_mkdir`.
use minix_rv.Prelude.{
  ℕ, zero, suc, ◌+◌, ◌≤◌, ◌<◌, ◌≡◌, refl, sym, ap, ◌∙◌, List, [], ◌∷◌, Bool, true, false, ◌&&◌,
  Option, none, some, pos, arith, length, take, length-take, ◌==◌, if◌then◌else◌, Bool-cases,
  Option-cases, inl, inr,
}
use mathlib.Core.Path.{subst}
use minix_rv.Fs.Base.{
  update, same_ptr, same_text, same_text_iff, same_text_refl, copy_text, copy_text-take,
}
use minix_rv.Fs.Ramfs.{
  RamFile, State, max_files, find_file_from, find_file, lookup, mkdir, add_entry, new_file,
}
use minix_rv.Fs.Ramfs.Valid.{IsValid, add_entry-IsValid}

-- The first result if there is one, else the second.
abbrev pub or_else : Option ℕ → Option ℕ → Option ℕ
or_else none q = q
or_else (some i) q = some i

abbrev hit : (ℕ → RamFile) → Option ℕ → List ℕ → ℕ → Option ℕ
hit files parent name i =
    if same_ptr (files i).parent parent && same_text (files i).name name then some i else none

if-or_else :
    (b : Bool) (i : ℕ) (q r t : Option ℕ)
    → t ≡ or_else q r
    → (if b then some i else t) ≡ or_else (if b then some i else q) r
if-or_else true i q r t e = refl
if-or_else false i q r t e = e

-- The last slot of the loop is read only if no other one fits.
find_file_from-suc :
    (files : ℕ → RamFile) (parent : Option ℕ) (name : List ℕ) (n i : ℕ)
    → find_file_from files parent name (suc n) i
      ≡ or_else (find_file_from files parent name n i) (hit files parent name (i + n))
unfolding find_file_from
find_file_from-suc files parent name zero i =
    ap (λ k. or_else none (hit files parent name k)) (omega arith)
find_file_from-suc files parent name (suc n) i =
    if-or_else (same_ptr (files i).parent parent && same_text (files i).name name) i
      (find_file_from files parent name n (suc i)) (hit files parent name (i + suc n))
      (find_file_from files parent name (suc n) (suc i))
      (find_file_from-suc files parent name n (suc i)
        ∙ ap (λ k. or_else (find_file_from files parent name n (suc i)) (hit files parent name k))
            (omega arith))

-- A slot that the loop does not reach may change.
find_file_from-update :
    (files : ℕ → RamFile) (k : ℕ) (x : RamFile) (parent : Option ℕ) (name : List ℕ) (n i : ℕ)
    → i + n ≤ k
    → find_file_from (update files k x) parent name n i ≡ find_file_from files parent name n i
unfolding find_file_from
find_file_from-update files k x parent name zero i h = refl
find_file_from-update files k x parent name (suc n) i h =
    ground (arith, find_file_from-update files k x parent name n (suc i))

find_file_from-bound :
    (files : ℕ → RamFile) (parent : Option ℕ) (name : List ℕ) (n i : ℕ) {j : ℕ}
    → find_file_from files parent name n i ≡ some j
    → j < i + n
unfolding find_file_from
find_file_from-bound files parent name zero i e = ground arith
find_file_from-bound files parent name (suc n) i {j} e =
    ground (arith, find_file_from-bound files parent name n (suc i) {j = j})

same_text_long : (n : ℕ) (s : List ℕ) → n < length s → same_text (copy_text n s) s ≡ false
same_text_long n s h = elim (Bool-cases (same_text (copy_text n s) s)) [
  | inl e ↦ absurd (
      omega (
        arith,
        length-take n s,
        ap length (sym (copy_text-take n s) ∙ (same_text_iff (copy_text n s) s).0 e),
      ))
  | inr e ↦ e
]

pub copy_text_short : (n : ℕ) (s : List ℕ) → length s ≤ n → copy_text n s ≡ s
copy_text_short n s h = copy_text-take n s ∙ take_all n s h
  where
    take_all : (n : ℕ) (s : List ℕ) → length s ≤ n → take n s ≡ s
    take_all zero [] h = refl
    take_all (suc n) [] h = refl
    take_all zero (c ∷ s) h = absurd (omega arith)
    take_all (suc n) (c ∷ s) h = ap (◌∷◌ c) (take_all n s (omega arith))

-- A `mkdir` that returns 0 had a free slot and a new name, and added one entry.
mkdir-ok :
    (s : State) (parent : ℕ) (name : List ℕ) (mode : ℕ) {s' : State}
    → mkdir s parent name mode ≡ (pos 0, s')
    → (s.file_count < max_files)
      × (find_file s (s.inodes parent).fs_private name ≡ none)
      × (s' ≡ add_entry s parent name mode)
unfolding mkdir
mkdir-ok s parent name mode e = ground arith

-- In a valid state the entry of slot `i` stands for inode `i`.
pub lookup-find_file :
    {s : State}
    → IsValid s
    → (dir : ℕ) (key : List ℕ) → dir < s.file_count
    → lookup s (some dir) key ≡ find_file s (some dir) key
unfolding lookup
lookup-find_file {s} v dir key h = elim (Option-cases (find_file s (some dir) key)) [
  | inl missing ↦ ground (arith, (v.each dir h).back)
  | inr (i, found) ↦ ground (arith, (v.each dir h).back, (v.each i (find_file-bound i found)).inode)
]
  where
    find_file-bound : (i : ℕ) → find_file s (some dir) key ≡ some i → i < s.file_count
    find_file-bound i e =
        unfold find_file in
        omega (arith, find_file_from-bound s.files (some dir) key s.file_count 0 e)

module _ {s : State} (v : IsValid s) (parent dir : ℕ) (name : List ℕ) (mode : ℕ) where
  find_file-add_entry :
      parent < s.file_count
      → dir < s.file_count
      → (key : List ℕ)
      → find_file (add_entry s parent name mode) (some dir) key
        ≡ or_else
            (find_file s (some dir) key)
            (if parent == dir && same_text (copy_text 63 name) key then some s.file_count else none)
  unfolding find_file add_entry new_file
  find_file-add_entry h k key = ground (
    arith,
    (v.each parent h).back,
    find_file_from-suc
        (update s.files s.file_count (new_file s (s.inodes parent).fs_private name mode)) (some dir)
        key s.file_count 0,
    find_file_from-update s.files s.file_count (new_file s (s.inodes parent).fs_private name mode)
        (some dir) key s.file_count 0,
  )

  -- In a valid state, after a `mkdir` under a live parent that returns 0, a lookup in a live
  -- directory finds what it found before, and else the new entry if the directory is the parent
  -- and the name is the new one cut to 63 characters.
  pub lookup-mkdir :
      parent < s.file_count
      → dir < s.file_count
      → (key : List ℕ) {s' : State} → mkdir s parent name mode ≡ (pos 0, s')
      → lookup s' (some dir) key
        ≡ or_else
            (lookup s (some dir) key)
            (if parent == dir && same_text (copy_text 63 name) key then some s.file_count else none)
  lookup-mkdir h k key {s'} e =
      let (room, new, reached) = mkdir-ok s parent name mode e in
      subst
        (λ t.
          lookup t (some dir) key
          ≡ or_else (lookup s (some dir) key) (
              if parent == dir && same_text (copy_text 63 name) key
              then some s.file_count
              else none))
        (sym reached)
        (lookup-find_file (add_entry-IsValid v parent name mode room) dir key
            (unfold add_entry in omega arith)
          ∙ find_file-add_entry h k key
          ∙ ap
              (λ q. or_else q (
                if parent == dir && same_text (copy_text 63 name) key
                then some s.file_count
                else none))
              (sym (lookup-find_file v dir key k)))

module _ {s : State} (v : IsValid s) (parent : ℕ) (name : List ℕ) (mode : ℕ) where
  lookup-new :
      parent < s.file_count
      → find_file s (s.inodes parent).fs_private name ≡ none
      → lookup s (some parent) name ≡ none
  lookup-new h new = lookup-find_file v parent name h ∙ ground (arith, (v.each parent h).back)

  -- A name of at most 63 characters is found again after its `mkdir`.
  pub lookup-mkdir_self :
      parent < s.file_count
      → length name ≤ 63
      → {s' : State} → mkdir s parent name mode ≡ (pos 0, s')
      → lookup s' (some parent) name ≡ some s.file_count
  lookup-mkdir_self h k e =
      let (room, new, reached) = mkdir-ok s parent name mode e in
      lookup-mkdir v parent parent name mode h h name e
      ∙ ground (arith, lookup-new h new, copy_text_short 63 name k, same_text_refl name)

  -- In a valid state, a `mkdir` under a live parent of a name of more than 63 characters that
  -- returns 0 stores the name cut: a lookup of it in the parent then still finds nothing.
  pub lookup-mkdir_long :
      parent < s.file_count
      → 63 < length name
      → {s' : State} → mkdir s parent name mode ≡ (pos 0, s')
      → lookup s' (some parent) name ≡ none
  lookup-mkdir_long h k e =
      let (room, new, reached) = mkdir-ok s parent name mode e in
      lookup-mkdir v parent parent name mode h h name e
      ∙ ground (arith, lookup-new h new, same_text_long 63 name k)

  -- A `mkdir` of a new name in a directory with a free slot left returns 0.
  pub mkdir-add_entry :
      parent < s.file_count
      → s.file_count < max_files
      → lookup s (some parent) name ≡ none
      → mkdir s parent name mode ≡ (pos 0, add_entry s parent name mode)
  unfolding mkdir
  mkdir-add_entry h room new =
      ground (arith, (v.each parent h).back, sym (lookup-find_file v parent name h) ∙ new)
