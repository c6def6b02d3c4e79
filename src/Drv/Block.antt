-- ===== src/Drv/Block.antt =====
-- The block devices of drivers/block/blockdev.c and include/minix/blockdev.h, with the cache of blocks. A pointer is an
-- address, and NULL is 0; the drivers' operations act on the memory and on the disks, whose type is `K`.
pub mod Flush
pub mod Cached
mod Tests
use minix_rv.Prelude.{
  ℕ, zero, suc, ◌+◌, ◌-◌, ◌*◌, ◌%◌, ◌^◌, Bool, true, false, ◌&&◌, ◌||◌, not, Option, none, some, ℤ,
  pos, negsuc, incr, List, [], ◌∷◌, leb, ltb, ◌==◌, if◌then◌else◌,
}
use minix_rv.Fs.Base.{update}

abbrev pub max_block_devs : ℕ
max_block_devs = 16

abbrev pub cache_size : ℕ
cache_size = 64

-- The memory and the disks.
pub record World (K : Type 0) : Type 0 where
  pub mem : ℕ → ℕ
  pub disks : K

-- `block_dev_ops_t`: block number, buffer and count; `none` for NULL.
pub record Ops (K : Type 0) : Type 0 where
  pub read_block : Option (World K → ℕ → ℕ → ℕ → ℤ × World K)
  pub write_block : Option (World K → ℕ → ℕ → ℕ → ℤ × World K)

-- `block_dev_t`, with its own address
pub record Dev (K : Type 0) : Type 0 where
  pub self : ℕ
  pub name : List ℕ
  pub ops : Option (Ops K)
  pub block_size : ℕ

pub record Entry : Type 0 where
  pub dev_ptr : ℕ
  pub block_num : ℕ
  pub bytes : ℕ
  pub dirty : ℕ

pub record Blocks (K : Type 0) : Type 0 where
  pub devices : ℕ → Option (Dev K)
  pub num_devices : ℕ
  pub cache : ℕ → Entry
  pub cache_hits : ℤ
  pub cache_misses : ℤ

-- The operations of a device that is not NULL.
abbrev pub ops_of : {K : Type 0} → Option (Dev K) → Option (Ops K)
ops_of none = none
ops_of (some dev) = dev.ops

abbrev pub same_name : List ℕ → List ℕ → Bool
same_name [] [] = true
same_name [] (d ∷ t) = false
same_name (c ∷ s) [] = false
same_name (c ∷ s) (d ∷ t) = (c == d) && same_name s t

-- Whether the entry holds the block of the device.
unfoldable pub is_cached : Entry → ℕ → ℕ → Bool
is_cached e dev block = not (e.bytes == 0) && (e.dev_ptr == dev) && (e.block_num == block)

-- The first of `n` entries from the `i`th on that holds the block.
unfoldable pub find_entry : (ℕ → Entry) → ℕ → ℕ → ℕ → ℕ → Option ℕ
unfolding is_cached
find_entry cache zero i dev block = none
find_entry cache (suc n) i dev block =
    if is_cached (cache i) dev block then some i else find_entry cache n (suc i) dev block

-- `size` bytes from `src` to `dst`, one after the other.
unfoldable pub copy_bytes : ℕ → ℕ → ℕ → (ℕ → ℕ) → ℕ → ℕ
copy_bytes zero dst src mem = mem
copy_bytes (suc size) dst src mem = copy_bytes size (dst + 1) (src + 1) (update mem dst (mem src))

-- The index `cache_misses % BLOCK_CACHE_SIZE`, whose sign is that of the counter; `none` where it is
-- negative, in front of the array.
unfoldable pub slot_of : ℤ → Option ℕ
slot_of (pos n) = some (n % cache_size)
slot_of (negsuc n) = if (n + 1) % cache_size == 0 then some 0 else none

-- What the write to an entry leaves in the array.
unfoldable pub put_entry : Option ℕ → Entry → (ℕ → Entry) → ℕ → Entry
put_entry none e cache = cache
put_entry (some i) e cache = update cache i e

-- `dirty = 1` in the entry that holds the block.
unfoldable pub mark_dirty : (ℕ → Entry) → ℕ → ℕ → ℕ → Entry
unfolding find_entry
mark_dirty cache dev block = elim (find_entry cache cache_size 0 dev block) [
  | none ↦ cache
  | some i ↦ update cache i (record (cache i) { dirty = 1 })
]

-- Whether `blockdev_flush` writes the entry.
unfoldable pub is_pending : Entry → ℕ → Bool
is_pending e dev = not (e.bytes == 0) && (e.dev_ptr == dev) && not (e.dirty == 0)

-- `n` entries from the `i`th on.
unfoldable pub clear_cache : ℕ → ℕ → (ℕ → Entry) → ℕ → Entry
clear_cache zero i cache = cache
clear_cache (suc n) i cache =
    clear_cache n (suc i)
      (update cache i (record { dev_ptr = 0; block_num = 0; bytes = 0; dirty = 0 }))

module _ {K : Type 0} where
  unfoldable pub blockdev_register : Blocks K → Option (Dev K) → ℤ × Blocks K
  blockdev_register s dev =
      if leb max_block_devs s.num_devices then (negsuc 0, s) else elim (ops_of dev) [
        | none ↦ (negsuc 0, s)
        | some ops ↦ (
          pos 0,
          record s {
            devices = update s.devices s.num_devices dev;
            num_devices = s.num_devices + 1;
          },
        )
      ]

  -- `n` devices from the `i`th on.
  unfoldable pub find_from : (ℕ → Option (Dev K)) → ℕ → ℕ → List ℕ → Option (Dev K)
  find_from devices zero i name = none
  find_from devices (suc n) i name =
      let rest = find_from devices n (suc i) name in
      elim (devices i) [
        | none ↦ rest
        | some dev ↦ if same_name dev.name name then some dev else rest
      ]

  unfoldable pub blockdev_find : Blocks K → List ℕ → Option (Dev K)
  unfolding find_from
  blockdev_find s name = find_from s.devices s.num_devices 0 name

  -- The block read from the device, and put into the cache where it is one block.
  unfoldable pub read_through :
      (World K → ℕ → ℕ → ℕ → ℤ × World K)
      → Dev K
      → Blocks K
      → World K
      → ℕ
      → ℕ
      → ℕ
      → ℤ × Blocks K × World K
  unfolding slot_of put_entry
  read_through read_block dev s w block buf count =
      let misses = incr s.cache_misses in
      let (result, w') = read_block w block buf count in
      let s' = record s { cache_misses = misses } in
      elim result [
        | negsuc n ↦ (negsuc n, s', w')
        | pos n ↦ (
          pos n,
          (if not (n == 0) && (count == 1)
              then (record s' {
                cache =
                    put_entry (slot_of misses)
                      (record { dev_ptr = dev.self; block_num = block; bytes = buf; dirty = 0 })
                      s.cache;
              })
              else s'),
          w',
        )
      ]

  -- A device with the operation to read, and a buffer that is not NULL.
  unfoldable pub read_checked :
      (World K → ℕ → ℕ → ℕ → ℤ × World K)
      → Dev K
      → Blocks K
      → World K
      → ℕ
      → ℕ
      → ℕ
      → ℤ × Blocks K × World K
  unfolding find_entry copy_bytes read_through
  read_checked read_block dev s w block buf count =
      elim (find_entry s.cache cache_size 0 dev.self block) [
        | none ↦ read_through read_block dev s w block buf count
        | some i ↦
            let s' = record s { cache_hits = incr s.cache_hits } in
            if count == 1
            then (
              pos dev.block_size,
              s',
              record w { mem = copy_bytes dev.block_size buf (s.cache i).bytes w.mem },
            )
            else read_through read_block dev s' w block buf count
      ]

  abbrev pub reader : Option (Ops K) → Option (World K → ℕ → ℕ → ℕ → ℤ × World K)
  reader none = none
  reader (some ops) = ops.read_block

  abbrev pub writer : Option (Ops K) → Option (World K → ℕ → ℕ → ℕ → ℤ × World K)
  writer none = none
  writer (some ops) = ops.write_block

  unfoldable pub blockdev_read :
      Blocks K → World K → Option (Dev K) → ℕ → ℕ → ℕ → ℤ × Blocks K × World K
  unfolding read_checked
  blockdev_read s w none block buf count = (negsuc 0, s, w)
  blockdev_read s w (some dev) block buf count = elim (reader dev.ops) [
    | none ↦ (negsuc 0, s, w)
    | some read_block ↦
        if buf == 0 then (negsuc 0, s, w) else read_checked read_block dev s w block buf count
  ]

  unfoldable pub blockdev_write :
      Blocks K → World K → Option (Dev K) → ℕ → ℕ → ℕ → ℤ × Blocks K × World K
  unfolding mark_dirty
  blockdev_write s w none block buf count = (negsuc 0, s, w)
  blockdev_write s w (some dev) block buf count = elim (writer dev.ops) [
    | none ↦ (negsuc 0, s, w)
    | some write_block ↦
        if buf == 0
        then (negsuc 0, s, w)
        else (let (result, w') = write_block w block buf count in
            (result, record s { cache = mark_dirty s.cache dev.self block }, w'))
  ]

  -- The entry written: a failure leaves it dirty.
  unfoldable pub flush_entry :
      (World K → ℕ → ℕ → ℕ → ℤ × World K)
      → ℕ
      → ℤ × (ℕ → Entry) × World K
      → ℤ × (ℕ → Entry) × World K
  flush_entry write_block i (result, cache, w) =
      let (res, w') = write_block w (cache i).block_num (cache i).bytes 1 in
      elim res [
        | negsuc n ↦ (negsuc 0, cache, w')
        | pos n ↦ (result, update cache i (record (cache i) { dirty = 0 }), w')
      ]

  -- `n` entries from the `i`th on.
  unfoldable pub flush_from :
      Option (World K → ℕ → ℕ → ℕ → ℤ × World K)
      → ℕ
      → ℕ
      → ℕ
      → ℤ × (ℕ → Entry) × World K
      → ℤ × (ℕ → Entry) × World K
  unfolding flush_entry is_pending
  flush_from write_block dev zero i (result, cache, w) = (result, cache, w)
  flush_from none dev (suc n) i (result, cache, w) =
      flush_from none dev n (suc i) (result, cache, w)
  flush_from (some write_block) dev (suc n) i (result, cache, w) =
      flush_from (some write_block) dev n (suc i) (
        if is_pending (cache i) dev
        then flush_entry write_block i (result, cache, w)
        else (result, cache, w))

  unfoldable pub blockdev_flush : Blocks K → World K → Dev K → ℤ × Blocks K × World K
  unfolding flush_from
  blockdev_flush s w dev =
      let (result, cache, w') =
        flush_from (writer dev.ops) dev.self cache_size 0 (pos 0, s.cache, w) in
      (result, record s { cache = cache }, w')

  unfoldable pub blockdev_init : Blocks K → ℤ × Blocks K
  unfolding clear_cache
  blockdev_init s = (pos 0, record s { cache = clear_cache cache_size 0 s.cache })
