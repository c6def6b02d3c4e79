-- ===== src/Fs/Ramfs/Data.antt =====
-- What `ramfs_write` stores, and that `ramfs_read` gives it back.
use minix_rv.Prelude.{
  ℕ, ◌+◌, ◌≤◌, ◌<◌, ◌≡◌, List, ◌++◌, some, pos, arith, length, take, drop, length-take, length-drop,
  length-append, drop-take_append, take-append_le, take-take_self, ◌∙◌, ap, ◌%◌, inl, inr,
}
use mathlib.Core.Path.{◌≡⟨◌⟩◌, ◌∎, subst}
use minix_rv.Str.{memcpy}
use minix_rv.Str.Memory.{memcpy_lem}
use minix_rv.Fs.Base.{File, update, u64_mod}
use minix_rv.Fs.Ramfs.{
  RamFile, State, max_files, max_file_size, copy_in, reserve, attach_buffer, write, write_entry,
  write_data, read, read_entry, read_data, new_size, grown, grown_inode,
}
use minix_rv.Fs.Ramfs.Valid.{IsValid, OwnBuffer}

-- A buffer after `n` bytes of `buf` were written at `at`.
abbrev pub patched : List ℕ → ℕ → List ℕ → ℕ → List ℕ
patched b at buf n = take at b ++ (take n buf ++ drop n (drop at b))

copy_in_lem :
    (buffers : ℕ → List ℕ) (b at n : ℕ) (buf : List ℕ)
    → at + n ≤ length (buffers b)
    → n ≤ length buf
    → copy_in buffers (some b) at buf n ≡ some (update buffers b (patched (buffers b) at buf n))
unfolding copy_in
copy_in_lem buffers b at n buf h k = rw (
  (memcpy_lem (drop at (buffers b)) buf n).0 (omega (arith, length-drop at (buffers b))) k,
  copy_in,
)

-- The state after `n` bytes of `buf` were written to the file of slot `p` at `at`.
abbrev pub stored : State → ℕ → ℕ → List ℕ → ℕ → State
stored s p at buf n = record s {
  files = update s.files p (record (s.files p) {
    buffer = some p;
    capacity = max_file_size;
    size = grown (s.files p).size (at + n);
  });
  inodes = update s.inodes p (grown_inode (s.inodes p) (s.files p).size (at + n));
  file_buffers = update s.file_buffers p (patched (s.file_buffers p) at buf n);
}

reserve_lem :
    (p n : ℕ) (rf : RamFile)
    → OwnBuffer p rf
    → p < max_files
    → 0 < n
    → n ≤ max_file_size
    → reserve p rf n ≡ some (record rf { buffer = some p; capacity = max_file_size })
unfolding reserve attach_buffer
reserve_lem p n rf (inl (nb, c)) h k m = ground arith
reserve_lem p n rf (inr (nb, c)) h k m = ground arith

write_data_lem :
    (s : State) (f : File) (p i : ℕ) (buf : List ℕ) (n : ℕ) (rf : RamFile) (end : ℕ)
    (buffers : ℕ → List ℕ)
    → (f.pos + n) % u64_mod ≡ end
    → copy_in s.file_buffers rf.buffer f.pos buf n ≡ some buffers
    → write_data s f p i buf n (some rf)
      ≡ some (
        pos n,
        record s {
          files = update s.files i (record rf { size = grown rf.size end });
          inodes = update s.inodes p (grown_inode (s.inodes p) rf.size end);
          file_buffers = buffers;
        },
        record f { pos = end },
      )
unfolding write_data
write_data_lem s f p i buf n rf end buffers e c = ground arith

length-patched :
    (b buf : List ℕ) (at n : ℕ)
    → at + n ≤ length b
    → n ≤ length buf
    → length (patched b at buf n) ≡ length b
length-patched b buf at n h k = omega (
  arith,
  length-append (take at b) (take n buf ++ drop n (drop at b)),
  length-append (take n buf) (drop n (drop at b)),
  length-take at b,
  length-take n buf,
  length-drop at b,
  length-drop n (drop at b),
)

read-data :
    (s : State) (f : File) (p i b : ℕ) (dst : List ℕ) (n : ℕ)
    → f.inode ≡ some p
    → (s.inodes p).fs_private ≡ some i
    → (s.files i).buffer ≡ some b
    → read s f dst n ≡ read_data (s.files i) (s.file_buffers b) f dst n
unfolding read read_entry
read-data s f p i b dst n e e' e'' = ground arith

read_data_lem :
    (rf : RamFile) (content dst out : List ℕ) (f : File) (n : ℕ)
    → f.pos < rf.size
    → f.pos + n ≤ rf.size
    → rf.size ≤ max_file_size
    → memcpy dst (drop f.pos content) n ≡ some out
    → read_data rf content f dst n ≡ some (pos n, record f { pos = f.pos + n }, out)
unfolding read_data
read_data_lem rf content dst out f n h k l c = ground arith

memcpy-patched :
    (b buf dst : List ℕ) (at n : ℕ)
    → at + n ≤ length b
    → n ≤ length buf
    → n ≤ length dst
    → memcpy dst (drop at (patched b at buf n)) n ≡ some (take n buf ++ drop n dst)
memcpy-patched b buf dst at n h k l =
    let back : drop at (patched b at buf n) ≡ take n buf ++ drop n (drop at b) =
      drop-take_append at b (take n buf ++ drop n (drop at b)) (omega arith) in
    let long : n ≤ length (take n buf ++ drop n (drop at b)) =
      omega (arith, length-append (take n buf) (drop n (drop at b)), length-take n buf) in
    let first : take n (take n buf ++ drop n (drop at b)) ≡ take n buf =
      take-append_le n (take n buf) (drop n (drop at b)) (omega (arith, length-take n buf))
      ∙ take-take_self n buf in
    rw back (rw ((memcpy_lem dst (take n buf ++ drop n (drop at b)) n).0 l long, first))

module _ {s : State} (v : IsValid s) (p : ℕ) (live : p < s.file_count) (f : File)
    (opened : f.inode ≡ some p) where
  pub write-entry : (buf : List ℕ) (n : ℕ) → write s f buf n ≡ write_entry s f p (some p) buf n
  unfolding write
  write-entry buf n = ground (arith, (v.each p live).back)

  -- In a valid state, a write of `n` > 0 bytes to a live file, from a buffer that holds them,
  -- that ends within the first 4096 bytes returns `n`, stores exactly these bytes at the
  -- position, and moves the position behind them.
  pub write-stored :
      (buf : List ℕ) (n : ℕ)
      → 0 < n
      → n ≤ length buf
      → f.pos + n ≤ max_file_size
      → write s f buf n ≡ some (pos n, stored s p f.pos buf n, record f { pos = f.pos + n })
  unfolding write_entry
  write-stored buf n h k m =
      write s f buf n
      ≡⟨ write-entry buf n ⟩ write_entry s f p (some p) buf n
      ≡⟨ ground arith ⟩ write_data s f p p buf n (reserve p (s.files p) (new_size f.pos n))
      ≡⟨ ap (write_data s f p p buf n) (
          reserve_lem p (new_size f.pos n) (s.files p) (v.each p live).own (omega (arith, v.count))
            (omega arith) (omega arith)) ⟩
        write_data s f p p buf n
          (some (record (s.files p) { buffer = some p; capacity = max_file_size }))
      ≡⟨ write_data_lem s f p p buf n
          (record (s.files p) { buffer = some p; capacity = max_file_size }) (f.pos + n)
          (update s.file_buffers p (patched (s.file_buffers p) f.pos buf n)) (omega arith)
          (copy_in_lem s.file_buffers p f.pos n buf (omega (arith, v.buffers p)) k) ⟩
        some (pos n, stored s p f.pos buf n, record f { pos = f.pos + n }) ∎

  -- In a valid state, reading where one has just written `n` > 0 bytes to a live file within
  -- its first 4096 bytes, with buffers of at least `n` bytes, gives those bytes in the first
  -- `n` of the caller's buffer, and leaves the rest of it.
  pub read-write :
      (buf dst : List ℕ) (n : ℕ)
      → 0 < n
      → n ≤ length buf
      → n ≤ length dst
      → f.pos + n ≤ max_file_size
      → (s' : State) × (f' : File) × (write s f buf n ≡ some (pos n, s', f'))
        × (read s' f dst n ≡ some (pos n, f', take n buf ++ drop n dst))
  read-write buf dst n h k l m = (
    stored s p f.pos buf n,
    record f { pos = f.pos + n },
    write-stored buf n h k m,
    read-data (stored s p f.pos buf n) f p p p dst n opened (ground (arith, (v.each p live).back))
          (ground arith)
        ∙ subst
            (λ c.
              read_data ((stored s p f.pos buf n).files p) c f dst n
              ≡ some (pos n, record f { pos = f.pos + n }, take n buf ++ drop n dst))
            (ground arith)
            (read_data_lem ((stored s p f.pos buf n).files p)
              (patched (s.file_buffers p) f.pos buf n) dst (take n buf ++ drop n dst) f n
              (ground arith) (ground arith)
              (ground (arith, (v.each p live).own, (v.each p live).size))
              (memcpy-patched (s.file_buffers p) buf dst f.pos n (omega (arith, v.buffers p)) k l)),
  )
