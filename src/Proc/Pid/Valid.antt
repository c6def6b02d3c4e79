-- ===== src/Proc/Pid/Valid.antt =====
-- What the bitmap of kernel/fork.c stands for, and the invariant that it keeps.
use native.Mathlib.Decide.{ℕ_discrete}
use minix_rv.Prelude.{
  ℕ, zero, suc, ◌+◌, ◌*◌, ◌/◌, ◌%◌, ◌^◌, ◌≤◌, ◌<◌, ◌≡◌, ◌∙◌, inl, inr, Bool, true, false, not, ◌&&◌,
  ◌||◌, none, some, ℤ, pos, negsuc, arith, ◌==◌, Bool-cases,
}
use minix_rv.Proc.Word.{
  test_bit-all_ones, test_bit-zero, all_ones, test_bit, test_bit-set_bit, test_bit-clear_bit,
  set_bit-lt, clear_bit-lt,
}
use minix_rv.Proc.Pid.{
  Pids, pid_max, is_pid, take_pid, free_pid, clear_pids, first_zero, ffs_zero, free_bit,
}

-- Whether the PID is in use.
unfoldable pub used : Pids → ℕ → Bool
used s pid = test_bit (s.pid_bitmap (pid / 64)) (pid % 64)

-- The words are 64 bits wide, and PID 0 is in use.
pub record IsValid (s : Pids) : Type 0 where
  pub wide : (i : ℕ) → s.pid_bitmap i < 2 ^ 64
  pub idle : used s 0 ≡ true

-- From `bit` on, `first_zero` finds the first zero bit.
first_zero_lem :
    (n word bit : ℕ) {r : ℕ}
    → first_zero n word bit ≡ some r
    → (bit ≤ r) × (r < bit + n) × (test_bit word r ≡ false)
unfolding first_zero
first_zero_lem zero word bit e = ground arith
first_zero_lem (suc n) word bit {r} e = elim (Bool-cases (test_bit word bit)) [
  | inl one ↦
      let ih = first_zero_lem n word (suc bit) {r = r} (ground arith) in
      (omega arith, omega arith, ih.2)
  | inr zero_bit ↦ (ground arith, ground arith, ground arith)
]

first_zero-none :
    (n word bit : ℕ)
    → first_zero n word bit ≡ none
    → (j : ℕ) → bit ≤ j
    → j < bit + n
    → test_bit word j ≡ true
unfolding first_zero
first_zero-none zero word bit e j h k = absurd (omega arith)
first_zero-none (suc n) word bit e j h k = elim (Bool-cases (test_bit word bit)) [
  | inr zero_bit ↦ ground arith
  | inl one ↦ elim (ℕ_discrete j bit) [
    | yes here ↦ ground (arith, here, one)
    | no later ↦ first_zero-none n word (suc bit) (ground arith) j (omega arith) (omega arith)
  ]
]

pub take_pid-used :
    (s : Pids) (idx bit pid : ℕ)
    → bit < 64
    → used (take_pid s idx bit) pid ≡ (pid == idx * 64 + bit || used s pid)
unfolding used
take_pid-used s idx bit pid h = elim (ℕ_discrete idx (pid / 64)) [
  | yes here ↦ ground (arith, here, test_bit-set_bit (s.pid_bitmap idx) bit (pid % 64))
  | no other ↦ ground arith
]

-- After `free_pid` of a number, the PIDs in use are those from before, without the number itself if it
-- is between 1 and `PID_MAX` - 1.
pub free_pid-used :
    (s : Pids) (pid q : ℕ)
    → used (free_pid s (pos pid)) q ≡ (not (is_pid pid && q == pid) && used s q)
unfolding used free_pid
free_pid-used s pid q = elim (ℕ_discrete (pid / 64) (q / 64)) [
  | yes here ↦ ground (
    arith,
    here,
    test_bit-clear_bit (s.pid_bitmap (pid / 64)) (pid % 64) (q % 64) (omega arith) (omega arith),
  )
  | no other ↦ ground arith
]

-- A bit that a round of `alloc_pid` finds is the first zero bit of a 64-bit word, or at least a zero bit.
pub free_bit-some :
    (word : ℕ) {b : ℕ} → free_bit word ≡ some b → (b < 64) × (test_bit word b ≡ false)
unfolding ffs_zero
free_bit-some word {b} e =
    let r = first_zero_lem 64 word 0 {r = b} (ground arith) in (omega (arith, r.1), r.2)

pub free_bit-none : (word : ℕ) → free_bit word ≡ none → (j : ℕ) → j < 64 → test_bit word j ≡ true
unfolding ffs_zero
free_bit-none word e j h = elim (Bool-cases (word == all_ones)) [
  | inl full ↦ ground (arith, full, test_bit-all_ones j h)
  | inr room ↦ first_zero-none 64 word 0 (ground arith) j (omega arith) (omega arith)
]

pub take_pid-IsValid :
    {s : Pids} → IsValid s → (idx bit : ℕ) → bit < 64 → IsValid (take_pid s idx bit)
take_pid-IsValid {s} v idx bit h = record {
  wide = λ i. ground (arith, set_bit-lt (s.pid_bitmap idx) bit (v.wide idx) h, v.wide i);
  idle = take_pid-used s idx bit 0 h ∙ ground (arith, v.idle);
}

-- `free_pid` of any number, on a bitmap of 64-bit words with PID 0 in use, leaves such a bitmap.
pub free_pid-IsValid : {s : Pids} → IsValid s → (pid : ℤ) → IsValid (free_pid s pid)
unfolding free_pid
free_pid-IsValid v (negsuc n) = v
free_pid-IsValid {s} v (pos pid) = record {
  wide = λ i.
      ground
        (arith, clear_bit-lt (s.pid_bitmap (pid / 64)) (pid % 64) (v.wide (pid / 64)), v.wide i);
  idle = free_pid-used s pid 0 ∙ ground (arith, v.idle);
}

-- `fork_init`, on 64-bit words, leaves a bitmap of 64-bit words in which PID 0 is in use, and no
-- other PID is.
pub clear_pids-IsValid :
    (s : Pids)
    → ((i : ℕ) → s.pid_bitmap i < 2 ^ 64)
    → IsValid (clear_pids s) × ((pid : ℕ) → pid < pid_max → used (clear_pids s) pid ≡ (pid == 0))
unfolding clear_pids used
clear_pids-IsValid s wide = (
  record {
    wide = λ i. ground (arith, set_bit-lt 0 0 (omega arith) (omega arith), wide i);
    idle = test_bit-set_bit 0 0 0;
  },
  λ pid lt. elim (ℕ_discrete (pid / 64) 0) [
    | yes here ↦ ground (arith, here, test_bit-set_bit 0 0 (pid % 64), test_bit-zero (pid % 64))
    | no other ↦ ground (arith, test_bit-zero (pid % 64))
  ],
)
