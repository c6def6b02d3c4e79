-- ===== src/Proc/Cache.antt =====
-- The cache of `task_struct`s of kernel/fork.c.
mod Tests
use minix_rv.Prelude.{
  ℕ, zero, suc, ◌+◌, ◌-◌, ◌^◌, ◌≤◌, ◌<◌, ◌≡◌, ◌≢◌, refl, sym, ap, ◌∙◌, inl, inr, List, replicate,
  Bool, true, false, not, ◌&&◌, ◌||◌, Option, none, some, ℤ, pos, negsuc, ltb, ◌==◌, if◌then◌else◌,
  arith, Bool-cases,
}
use native.Mathlib.Decide.{ℕ_discrete}
use minix_rv.Fs.Base.{update}
use minix_rv.Proc.Word.{
  test_bit, set_bit, clear_bit, test_bit-set_bit, test_bit-clear_bit, test_bit-zero,
}

abbrev pub task_cache_size : ℕ
task_cache_size = 64

-- `task_cache` as the bytes of each slot, and `task_cache_bitmap`.
pub record TaskCache : Type 0 where
  pub task_cache : ℕ → List ℕ
  pub task_cache_bitmap : ℕ

-- The first slot from `i` on whose bit is not set.
unfoldable pub free_slot : ℕ → ℕ → ℕ → Option ℕ
free_slot zero bitmap i = none
free_slot (suc n) bitmap i =
    let rest = free_slot n bitmap (suc i) in if test_bit bitmap i then rest else some i

-- The bit is set and every byte of the slot cleared.
abbrev pub take_slot : ℕ → TaskCache → ℕ → TaskCache
take_slot task_size s i = record {
  task_cache = update s.task_cache i (replicate task_size 0);
  task_cache_bitmap = set_bit s.task_cache_bitmap i;
}

-- `task_size` is `sizeof(struct task_struct)`; `none` is NULL.
unfoldable pub alloc_task_struct : ℕ → TaskCache → Option ℕ × TaskCache
alloc_task_struct task_size s = elim (free_slot task_cache_size s.task_cache_bitmap 0) [
  | none ↦ (none, s)
  | some i ↦ (some i, take_slot task_size s i)
]

-- The task as its offset `tsk - task_cache`, which is any integer for a task from elsewhere.
unfoldable pub free_task_struct : TaskCache → ℤ → TaskCache
free_task_struct s (negsuc n) = s
free_task_struct s (pos idx) =
    if ltb idx task_cache_size && ltb idx 64
    then record s { task_cache_bitmap = clear_bit s.task_cache_bitmap idx }
    else s

-- `task_table`, as the PID of the task in each slot that is not NULL. The search of `find_task_by_pid`.
find_task_from : (ℕ → Option ℕ) → ℕ → ℕ → ℕ → Option ℕ
find_task_from task_table pid zero i = none
find_task_from task_table pid (suc n) i =
    let rest = find_task_from task_table pid n (suc i) in
    elim (task_table i) [ none ↦ rest | some q ↦ if q == pid then some i else rest ]

-- The slot of the task, for its pointer.
unfoldable pub find_task_by_pid : (ℕ → Option ℕ) → ℕ → Option ℕ
unfolding find_task_from
find_task_by_pid task_table pid = find_task_from task_table pid 64 0

free_slot-some :
    (n bitmap i : ℕ) {r : ℕ}
    → free_slot n bitmap i ≡ some r
    → (r < i + n) × (test_bit bitmap r ≡ false)
unfolding free_slot
free_slot-some zero bitmap i e = ground arith
free_slot-some (suc n) bitmap i {r} e = elim (Bool-cases (test_bit bitmap i)) [
  | inl busy ↦
      let (low, free) = free_slot-some n bitmap (suc i) {r = r} (ground arith) in
      (omega arith, free)
  | inr free ↦ (ground arith, ground arith)
]

free_slot-none :
    (n bitmap i : ℕ)
    → free_slot n bitmap i ≡ none
    → (j : ℕ) → i ≤ j
    → j < i + n
    → test_bit bitmap j ≡ true
unfolding free_slot
free_slot-none zero bitmap i e j h k = absurd (omega arith)
free_slot-none (suc n) bitmap i e j h k = elim (Bool-cases (test_bit bitmap i)) [
  | inr free ↦ ground arith
  | inl busy ↦ elim (ℕ_discrete j i) [
    | yes here ↦ ground (arith, here, busy)
    | no later ↦ free_slot-none n bitmap (suc i) (ground arith) j (omega arith) (omega arith)
  ]
]

-- What `alloc_task_struct` answers: a slot that was free, now marked and full of zeros while the other
-- slots and their marks stay; or none, where every slot is in use.
abbrev pub SlotResult : ℕ → TaskCache → Option ℕ × TaskCache → Type 0
SlotResult task_size s (none, s') =
    (s' ≡ s) × ((j : ℕ) → j < task_cache_size → test_bit s.task_cache_bitmap j ≡ true)
SlotResult task_size s (some i, s') =
    (i < task_cache_size)
    × (test_bit s.task_cache_bitmap i ≡ false)
    × (s'.task_cache i ≡ replicate task_size 0)
    × ((j : ℕ) → j ≢ i → s'.task_cache j ≡ s.task_cache j)
    × ((j : ℕ) → test_bit s'.task_cache_bitmap j ≡ (j == i || test_bit s.task_cache_bitmap j))

-- `alloc_task_struct` takes a slot of the cache that was free, clears it and marks it and no
-- other; or it returns NULL and changes nothing, and then all 64 slots are in use.
pub alloc_task_struct-SlotResult :
    (task_size : ℕ) (s : TaskCache) → SlotResult task_size s (alloc_task_struct task_size s)
unfolding alloc_task_struct
alloc_task_struct-SlotResult task_size s =
    given (free_slot task_cache_size s.task_cache_bitmap 0) refl
  where
    given :
        (o : Option ℕ)
        → free_slot task_cache_size s.task_cache_bitmap 0 ≡ o
        → SlotResult task_size s
            (elim o [ none ↦ (none, s) | some i ↦ (some i, take_slot task_size s i) ])
    given none e = (
      refl,
      λ j lt. free_slot-none task_cache_size s.task_cache_bitmap 0 e j (omega arith) (omega arith),
    )
    given (some i) e =
        let (low, free) = free_slot-some task_cache_size s.task_cache_bitmap 0 {r = i} e in
        (
          omega (arith, low),
          free,
          ground arith,
          λ j ne. ground arith,
          λ j. test_bit-set_bit s.task_cache_bitmap i j,
        )
