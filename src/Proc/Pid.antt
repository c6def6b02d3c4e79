-- ===== src/Proc/Pid.antt =====
-- The process identifiers of kernel/fork.c: `alloc_pid` and `free_pid` on the bitmap. The lock is
-- not modelled: each function runs as a whole.
pub mod Valid
pub mod Alloc
mod Tests
use minix_rv.Prelude.{
  ℕ, zero, suc, ◌+◌, ◌*◌, ◌/◌, ◌%◌, Bool, true, false, ◌&&◌, Option, none, some, ℤ, pos, negsuc,
  minus_one, leb, ltb, ◌==◌, if◌then◌else◌,
}
use minix_rv.Fs.Base.{update}
use minix_rv.Proc.Word.{all_ones, test_bit, set_bit, clear_bit}

abbrev pub pid_max : ℕ
pid_max = 32768

abbrev pub pid_bitmap_size : ℕ
pid_bitmap_size = 512

pub record Pids : Type 0 where
  pub pid_bitmap : ℕ → ℕ
  pub last_pid : ℕ

-- `while (word & (1UL << bit)) bit++;` for at most `n` rounds: a shift by 64 is not defined.
unfoldable pub first_zero : ℕ → ℕ → ℕ → Option ℕ
first_zero zero word bit = none
first_zero (suc n) word bit =
    let rest = first_zero n word (suc bit) in if test_bit word bit then rest else some bit

-- `none` is the -1.
unfoldable pub ffs_zero : ℕ → Option ℕ
unfolding first_zero
ffs_zero word = if word == all_ones then none else first_zero 64 word 0

-- The test of the loop of `alloc_pid` for a new `pid`.
abbrev pub is_pid : ℕ → Bool
is_pid pid = ltb 0 pid && ltb pid pid_max

-- `pid_bitmap[idx] |= (1UL << bit); last_pid = pid;`
abbrev pub take_pid : Pids → ℕ → ℕ → Pids
take_pid s idx bit = record {
  pid_bitmap = update s.pid_bitmap idx (set_bit (s.pid_bitmap idx) bit);
  last_pid = idx * 64 + bit;
}

-- The bit that a round of the loop finds in its word.
abbrev pub free_bit : ℕ → Option ℕ
free_bit word = if word == all_ones then none else ffs_zero word

-- The rounds from `i` on. A round that finds a bit sets `pid` even where its test then fails.
unfoldable pub alloc_from : ℕ → Pids → ℕ → ℕ → Option ℕ × Pids
alloc_from zero s pid i = (none, s)
alloc_from (suc n) s pid i = elim (free_bit (s.pid_bitmap ((pid / 64 + i) % pid_bitmap_size))) [
  | none ↦ alloc_from n s pid (suc i)
  | some bit ↦ elim (is_pid ((pid / 64 + i) % pid_bitmap_size * 64 + bit)) [
    | true ↦ (
      some ((pid / 64 + i) % pid_bitmap_size * 64 + bit),
      take_pid s ((pid / 64 + i) % pid_bitmap_size) bit,
    )
    | false ↦ alloc_from n s ((pid / 64 + i) % pid_bitmap_size * 64 + bit) (suc i)
  ]
]

-- Where the search starts.
abbrev pub first_pid : Pids → ℕ
first_pid s = if leb pid_max (s.last_pid + 1) then 1 else s.last_pid + 1

-- `none` is the -1.
unfoldable pub alloc_pid : Pids → Option ℕ × Pids
unfolding alloc_from
alloc_pid s = alloc_from pid_bitmap_size s (first_pid s) 0

unfoldable pub free_pid : Pids → ℤ → Pids
free_pid s (negsuc n) = s
free_pid s (pos pid) =
    if is_pid pid
    then record s {
      pid_bitmap = update s.pid_bitmap (pid / 64) (clear_bit (s.pid_bitmap (pid / 64)) (pid % 64));
    }
    else s

-- The part of `fork_init` that clears the bitmap and reserves PID 0.
unfoldable pub clear_pids : Pids → Pids
clear_pids s = record s {
  pid_bitmap =
      λ i. if i == 0 then set_bit 0 0 else (if ltb i pid_bitmap_size then 0 else s.pid_bitmap i);
}
