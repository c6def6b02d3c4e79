-- ===== src/Proc/Pid/Tests.antt =====
-- The PID bitmap of kernel/fork.c after `fork_init`, and the theorems at it.
use minix_rv.Prelude.{ℕ, ◌≡◌, refl, some, pos, arith}
use minix_rv.Proc.Pid.{Pids, alloc_pid, free_pid, clear_pids, alloc_from, ffs_zero, first_zero}
use minix_rv.Proc.Word.{test_bit, set_bit}
use minix_rv.Proc.Pid.Valid.{IsValid, clear_pids-IsValid}
use minix_rv.Proc.Pid.Alloc.{AllocResult, alloc_pid-AllocResult, alloc_pid-free_pid}

abbrev blank : Pids
blank = record { pid_bitmap = λ i. 0; last_pid = 0 }

start : Pids
start = clear_pids blank

start-IsValid : IsValid start
unfolding start
start-IsValid = (clear_pids-IsValid blank (λ i. omega arith)).0

-- The first PID is 1.
first : (alloc_pid start).0 ≡ some 1
unfolding start clear_pids alloc_pid alloc_from ffs_zero first_zero test_bit set_bit
first = refl

alloc_pid-AllocResult_example : AllocResult start (alloc_pid start)
alloc_pid-AllocResult_example = alloc_pid-AllocResult start start-IsValid

alloc_pid-free_pid_example :
    (r : ℕ) × (s' : Pids) × (alloc_pid (free_pid start (pos 5)) ≡ (some r, s'))
alloc_pid-free_pid_example = alloc_pid-free_pid start start-IsValid 5 (omega arith) (omega arith)
