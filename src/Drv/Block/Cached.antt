-- ===== src/Drv/Block/Cached.antt =====
-- What a block in the cache of drivers/block/blockdev.c is read from: the buffer of the one who read it first.
use mathlib.Core.Path.{subst}
use native.Mathlib.Decide.{ℕ_discrete}
use minix_rv.Prelude.{
  ℕ, zero, suc, ◌+◌, ◌%◌, ◌≤◌, ◌<◌, ◌≡◌, ◌≢◌, refl, sym, ap, ◌∙◌, inl, inr, true, false, Option,
  none, some, ℤ, pos, incr, incr-pos, ◌^◌, ◌==◌, if◌then◌else◌, arith, Bool-cases,
}
use minix_rv.Fs.Base.{update}
use minix_rv.Drv.Block.{
  World, Dev, Entry, Blocks, cache_size, reader, is_cached, find_entry, copy_bytes, read_through,
  read_checked, blockdev_read,
}

some-ne-none : (i : ℕ) → some i ≢ none
some-ne-none i e = cc

find_entry-put :
    (n i k dev block : ℕ) (cache : ℕ → Entry) (e : Entry)
    → i ≤ k
    → k < i + n
    → find_entry cache n i dev block ≡ none
    → is_cached e dev block ≡ true
    → find_entry (update cache k e) n i dev block ≡ some k
unfolding find_entry
find_entry-put zero i k dev block cache e h l missing held = absurd (omega (arith, h, l))
find_entry-put (suc n) i k dev block cache e h l missing held = elim (ℕ_discrete k i) [
  | yes same ↦
      ap (λ c. if is_cached c dev block then some i else rest) (here same)
      ∙ rw held (ap (λ m. some m) (sym same))
  | no ne ↦ elim (Bool-cases (is_cached (cache i) dev block)) [
    | inl found ↦ absurd (some-ne-none i (sym (first found) ∙ missing))
    | inr other ↦
        ap (λ c. if is_cached c dev block then some i else rest) (there ne)
        ∙ rw other (
            find_entry-put n (suc i) k dev block cache e (omega (arith, h, ne)) (omega (arith, l))
              (sym (later other) ∙ missing) held)
  ]
]
  where
    rest : Option ℕ
    rest = find_entry (update cache k e) n (suc i) dev block

    here : k ≡ i → update cache k e i ≡ e
    here same = ground (arith, same)

    there : k ≢ i → update cache k e i ≡ cache i
    there ne = ground (arith, ne)

    first : is_cached (cache i) dev block ≡ true → find_entry cache (suc n) i dev block ≡ some i
    first found = rw (found, find_entry) refl

    later :
        is_cached (cache i) dev block ≡ false
        → find_entry cache (suc n) i dev block ≡ find_entry cache n (suc i) dev block
    later other = rw (other, find_entry) refl

is_cached_self :
    (dev block buf : ℕ)
    → 0 < buf
    → is_cached (record { dev_ptr = dev; block_num = block; bytes = buf; dirty = 0 }) dev block
      ≡ true
unfolding is_cached
is_cached_self dev block buf h = ground (arith, h)

-- A block in the cache is copied from the buffer of its entry.
read_hit :
    {K : Type 0} (s : Blocks K) (w : World K) (dev : Dev K)
    (read_block : World K → ℕ → ℕ → ℕ → ℤ × World K) (block buf i : ℕ)
    → reader dev.ops ≡ some read_block
    → (buf == 0) ≡ false
    → find_entry s.cache cache_size 0 dev.self block ≡ some i
    → blockdev_read s w (some dev) block buf 1 ≡ (
      pos dev.block_size,
      record s { cache_hits = incr s.cache_hits },
      record w { mem = copy_bytes dev.block_size buf (s.cache i).bytes w.mem },
    )
unfolding blockdev_read read_checked
read_hit s w dev read_block block buf i has not_null hit =
    rw (has, not_null, hit, blockdev_read, read_checked) refl

-- Where `cache_misses` is from 0 to 2 ^ 31 - 2, and a device with an operation to read has read one block into the buffer `buf`, neither NULL, that no entry of the
-- cache held, in whatever state of memory and disks the block is read again, as one block, into a buffer that is
-- not NULL: the result is the size of a block, the disks are not asked, and what is copied is what the
-- buffer `buf` holds by then.
pub blockdev_read-again :
    {K : Type 0} (s : Blocks K) (w w' : World K) (dev : Dev K)
    (read_block : World K → ℕ → ℕ → ℕ → ℤ × World K) (block buf buf' n misses : ℕ)
    → s.cache_misses ≡ pos misses
    → suc misses < 2 ^ 31
    → reader dev.ops ≡ some read_block
    → 0 < buf
    → 0 < buf'
    → find_entry s.cache cache_size 0 dev.self block ≡ none
    → (read_block w block buf 1).0 ≡ pos (suc n)
    → let s' = (blockdev_read s w (some dev) block buf 1).1 in
      ((blockdev_read s' w' (some dev) block buf' 1).0 ≡ pos dev.block_size)
      × ((blockdev_read s' w' (some dev) block buf' 1).2
          ≡ record w' { mem = copy_bytes dev.block_size buf' buf w'.mem })
unfolding blockdev_read read_checked read_through
blockdev_read-again {K} s w w' dev read_block block buf buf' n misses count room has some_buf
      some_buf' missing done =
    subst
      (λ s'.
        ((blockdev_read s' w' (some dev) block buf' 1).0 ≡ pos dev.block_size)
        × ((blockdev_read s' w' (some dev) block buf' 1).2
            ≡ record w' { mem = copy_bytes dev.block_size buf' buf w'.mem }))
      (sym put)
      (
        ap (λ r. r.0) again,
        ap (λ r. r.2) again
            ∙ ap (λ e. record w' { mem = copy_bytes dev.block_size buf' e w'.mem }) held_bytes,
      )
  where
    not_null : (b : ℕ) → 0 < b → (b == 0) ≡ false
    not_null b h = ground (arith, h)

    nonzero : (suc n == 0) ≡ false
    nonzero = ground arith

    counted : incr s.cache_misses ≡ pos (suc misses)
    counted = ap incr count ∙ incr-pos misses room

    slot : ℕ
    slot = suc misses % cache_size

    entry : Entry
    entry = record { dev_ptr = dev.self; block_num = block; bytes = buf; dirty = 0 }

    after : Blocks K
    after = record s { cache_misses = pos (suc misses); cache = update s.cache slot entry }

    put : (blockdev_read s w (some dev) block buf 1).1 ≡ after
    put =
        rw (has, not_null buf some_buf, missing, done, blockdev_read, read_checked, read_through)
          (rw nonzero (rw counted refl))

    hit : find_entry after.cache cache_size 0 dev.self block ≡ some slot
    hit =
        find_entry-put cache_size 0 slot dev.self block s.cache entry (omega arith) (omega arith)
          missing (is_cached_self dev.self block buf some_buf)

    held_bytes : (after.cache slot).bytes ≡ buf
    held_bytes = ground arith

    again : blockdev_read after w' (some dev) block buf' 1 ≡ (
      pos dev.block_size,
      record after { cache_hits = incr s.cache_hits },
      record w' { mem = copy_bytes dev.block_size buf' (after.cache slot).bytes w'.mem },
    )
    again = read_hit after w' dev read_block block buf' slot has (not_null buf' some_buf') hit
