-- ===== src/Drv/Block/Tests.antt =====
-- A small disk for the block devices of drivers/block/blockdev.c.
use minix_rv.Prelude.{
  ℕ, zero, suc, negsuc, incr, to_int, ◌+◌, ◌-◌, ◌^◌, ◌≡◌, refl, false, none, some, ℤ, pos, [], ◌∷◌,
  ◌==◌, if◌then◌else◌, arith,
}
use minix_rv.Fs.Base.{update}
use minix_rv.Drv.Block.{
  World, Dev, Entry, Blocks, is_pending, is_cached, find_entry, copy_bytes, blockdev_read,
  blockdev_flush, slot_of,
}
use minix_rv.Drv.Block.Flush.{blockdev_flush-clean}
use minix_rv.Drv.Block.Cached.{blockdev_read-again}

-- Blocks of one byte.
abbrev disk_read : World (ℕ → ℕ) → ℕ → ℕ → ℕ → ℤ × World (ℕ → ℕ)
disk_read w block buf count = (pos 1, record w { mem = update w.mem buf (w.disks block) })

abbrev disk_write : World (ℕ → ℕ) → ℕ → ℕ → ℕ → ℤ × World (ℕ → ℕ)
disk_write w block buf count = (pos 1, record w { disks = update w.disks block (w.mem buf) })

abbrev disk : Dev (ℕ → ℕ)
disk = record {
  self = 4;
  name = 100 ∷ [];
  ops = some (record { read_block = some disk_read; write_block = some disk_write });
  block_size = 1;
}

abbrev world : World (ℕ → ℕ)
world = record { mem = λ a. a; disks = λ b. b + 100 }

abbrev no_entry : Entry
no_entry = record { dev_ptr = 0; block_num = 0; bytes = 0; dirty = 0 }

abbrev empty_cache : Blocks (ℕ → ℕ)
empty_cache = record {
  devices = λ i. none;
  num_devices = 0;
  cache = λ i. no_entry;
  cache_hits = pos 0;
  cache_misses = pos 0;
}

-- Behind 2 ^ 31 - 1 the counter is negative, and so are most of its indices.
overflow : (incr (pos (2 ^ 31 - 1)) ≡ negsuc (2 ^ 31 - 1)) × (slot_of (negsuc (2 ^ 31 - 2)) ≡ none)
unfolding incr to_int slot_of
overflow = (refl, refl)

nothing_cached : (n i : ℕ) → find_entry (λ j. no_entry) n i 4 7 ≡ none
unfolding find_entry is_cached
nothing_cached zero i = refl
nothing_cached (suc n) i = nothing_cached n (suc i)

-- One dirty entry, at place 0.
abbrev one_dirty : Blocks (ℕ → ℕ)
one_dirty = record empty_cache {
  cache = λ i.
      (if i == 0 then record { dev_ptr = 4; block_num = 7; bytes = 50; dirty = 1 } else no_entry);
}

one_dirty-flushed : (blockdev_flush one_dirty world disk).0 ≡ pos 0
unfolding blockdev_flush
one_dirty-flushed = refl

blockdev_flush-clean_example :
    is_pending ((blockdev_flush one_dirty world disk).1.cache 0) 4 ≡ false
blockdev_flush-clean_example =
    blockdev_flush-clean one_dirty world disk disk_write refl one_dirty-flushed 0 (omega arith)

blockdev_read-again_example :
    let s' = (blockdev_read empty_cache world (some disk) 7 50 1).1 in
    ((blockdev_read s' world (some disk) 7 60 1).0 ≡ pos 1)
    × ((blockdev_read s' world (some disk) 7 60 1).2
        ≡ record world { mem = copy_bytes 1 60 50 world.mem })
blockdev_read-again_example =
    blockdev_read-again empty_cache world world disk disk_read 7 50 60 0 0 refl (omega arith) refl
      (omega arith) (omega arith) (nothing_cached 64 0) refl
