-- ===== src/Fs/Ramfs/Keep.antt =====
-- What `ramfs_write` keeps on every branch, and where it leaves its buffer.
use minix_rv.Prelude.{
  ℕ, zero, suc, ◌+◌, ◌≤◌, ◌<◌, ◌≡◌, refl, List, Option, none, some, ℤ, arith, length, take, drop,
  ltb, length-take, length-drop, length-append, ◌∙◌, ◌%◌, sym, Bool-cases, inl, inr, Option-cases,
}
use mathlib.Core.Path.{subst}
use minix_rv.Str.{memcpy}
use minix_rv.Str.Memory.{memcpy_lem, length-memcpy}
use minix_rv.Fs.Base.{File, update, u64_mod}
use minix_rv.Fs.Ramfs.{
  RamFile, State, max_files, max_file_size, copy_in, reserve, attach_buffer, write, write_entry,
  write_data, new_size, grown, grown_inode,
}
use minix_rv.Fs.Ramfs.Valid.{IsValid, OwnBuffer}
use minix_rv.Fs.Ramfs.Data.{write-entry}

-- The state that a write reaches, with `rf` for the entry, `end` for its end and `out` for the buffers.
abbrev written : State → ℕ → RamFile → ℕ → (ℕ → List ℕ) → State
written s p rf end out = record s {
  files = update s.files p (record rf { size = grown rf.size end });
  inodes = update s.inodes p (grown_inode (s.inodes p) rf.size end);
  file_buffers = out;
}

length-copy_in :
    (buffers : ℕ → List ℕ) (b : Option ℕ) (at n : ℕ) (buf : List ℕ) {out : ℕ → List ℕ}
    → ((i : ℕ) → length (buffers i) ≡ max_file_size)
    → copy_in buffers b at buf n ≡ some out
    → (i : ℕ) → length (out i) ≡ max_file_size
unfolding copy_in
length-copy_in buffers none at zero buf h e i = ground (arith, h i)
length-copy_in buffers none at (suc n) buf h e i = ground arith
length-copy_in buffers (some b) at n buf h e i =
    elim (Option-cases (memcpy (drop at (buffers b)) buf n)) [
      | inl stop ↦ ground arith
      | inr (rest, go) ↦ ground (
        arith,
        h i,
        h b,
        length-memcpy (drop at (buffers b)) buf n go,
        length-append (take at (buffers b)) rest,
        length-take at (buffers b),
        length-drop at (buffers b),
      )
    ]

-- What `reserve` may change of a file, and what room it makes.
record Reserved (p n : ℕ) (old rf : RamFile) : Type 0 where
  own : OwnBuffer p rf
  room : n ≤ rf.capacity
  size : rf.size ≡ old.size
  grows : old.capacity ≤ rf.capacity
  name : rf.name ≡ old.name
  inode : rf.inode ≡ old.inode
  ino : rf.ino ≡ old.ino

reserve-Reserved :
    (p n : ℕ) (old : RamFile) {rf : RamFile}
    → OwnBuffer p old
    → n ≤ max_file_size
    → reserve p old n ≡ some rf
    → Reserved p n old rf
unfolding reserve attach_buffer
reserve-Reserved p n old (inl (nb, c)) h e = ground arith
reserve-Reserved p n old (inr (nb, c)) h e = ground arith

copy_in_overrun :
    (buffers : ℕ → List ℕ) (b : Option ℕ) (at n : ℕ) (buf : List ℕ)
    → ((i : ℕ) → length (buffers i) ≡ max_file_size)
    → 0 < n
    → max_file_size < at + n
    → copy_in buffers b at buf n ≡ none
unfolding copy_in
copy_in_overrun buffers none at zero buf h k m = absurd (omega arith)
copy_in_overrun buffers none at (suc n) buf h k m = refl
copy_in_overrun buffers (some b) at n buf h k m = rw (
  (memcpy_lem (drop at (buffers b)) buf n).1 (omega (arith, h b, length-drop at (buffers b))),
  copy_in,
)

reserve-some :
    (p n : ℕ) (old : RamFile) → p < max_files → (rf : RamFile) × (reserve p old n ≡ some rf)
unfolding reserve
reserve-some p n old h = elim (Bool-cases (ltb old.capacity n)) [
  | inl more ↦ (attach_buffer p old old.buffer, ground arith)
  | inr fits ↦ (old, ground arith)
]

module _ {s : State} (v : IsValid s) (p : ℕ) (live : p < s.file_count) (f : File) where
  write_data-IsValid :
      (buf : List ℕ) (n : ℕ) {rf : RamFile} {r : ℤ} {s' : State} {f' : File}
      → Reserved p (new_size f.pos n) (s.files p) rf
      → write_data s f p p buf n (some rf) ≡ some (r, s', f')
      → IsValid s'
  unfolding write_data
  write_data-IsValid buf n {rf} {r} {s'} res e =
      elim (Option-cases (copy_in s.file_buffers rf.buffer f.pos buf n)) [
        | inl stop ↦ ground arith
        | inr (out, go) ↦
            let reached : s' ≡ written s p rf ((f.pos + n) % u64_mod) out = ground arith in
            subst IsValid (sym reached) (record {
              rooted = v.rooted;
              count = v.count;
              next = v.next;
              root = v.root;
              each = λ i lt. ground (arith, v.each i);
              buffers = length-copy_in s.file_buffers rf.buffer f.pos n buf v.buffers go;
            })
      ]

  -- Whatever `ramfs_write` does to a live file of a valid state, however large the count and
  -- the position, the state stays valid if the write returns: the sizes stay within the
  -- buffers.
  pub write-IsValid :
      f.inode ≡ some p
      → (buf : List ℕ) (n : ℕ) {r : ℤ} {s' : State} {f' : File} → write s f buf n ≡ some (r, s', f')
      → IsValid s'
  unfolding write_entry
  write-IsValid opened buf n {r} {s'} {f'} e =
      let entered : write_entry s f p (some p) buf n ≡ some (r, s', f') =
        sym (write-entry v p live f opened buf n) ∙ e in
      elim (Bool-cases (ltb max_file_size (new_size f.pos n))) [
        | inl large ↦ subst IsValid (ground arith) v
        | inr fits ↦ elim (Option-cases (reserve p (s.files p) (new_size f.pos n))) [
          | inl refused ↦ subst IsValid (ground arith) v
          | inr (rf, kept) ↦
              write_data-IsValid buf n {r = r} {s' = s'} {f' = f'}
                (reserve-Reserved p (new_size f.pos n) (s.files p) (v.each p live).own
                  (ground arith) kept)
                (ground arith)
        ]
      ]

  -- In a valid state, `ramfs_write` checks the size after the sum of position and count was cut
  -- to 32 bits: where the sum itself does not fit the buffer of a live file but what is left of
  -- it does, and the count is not 0, it accesses memory past the end of a buffer.
  pub write_overrun :
      f.inode ≡ some p
      → (buf : List ℕ) (n : ℕ) → 0 < n
      → max_file_size < f.pos + n
      → new_size f.pos n ≤ max_file_size
      → write s f buf n ≡ none
  unfolding write_entry
  write_overrun opened buf n h k m =
      let (rf, kept) = reserve-some p (new_size f.pos n) (s.files p) (omega (arith, v.count)) in
      write-entry v p live f opened buf n
      ∙ ground (arith, copy_in_overrun s.file_buffers rf.buffer f.pos n buf v.buffers)
