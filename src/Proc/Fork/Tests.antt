-- ===== src/Proc/Fork/Tests.antt =====
-- A shell that forks, for kernel/fork.c and kernel/exit.c.
use minix_rv.Prelude.{
  ℕ, pos, ◌+◌, ◌<◌, ◌≡◌, refl, Option, some, none, true, [], ◌∷◌, ◌==◌, if◌then◌else◌, arith,
}
use minix_rv.Proc.Word.{test_bit}
use minix_rv.Proc.Pid.{pid_max, alloc_pid, ffs_zero}
use minix_rv.Proc.Pid.Valid.{used, IsValid}
use minix_rv.Proc.Cache.{free_slot, alloc_task_struct}
use minix_rv.Proc.Sched.{Rq, PrioArray}
use minix_rv.Proc.Process.{Kernel, Process, Stacks, init_task, get_current}
use minix_rv.Proc.Copy.{blank, blank_task, new_mm, sigchld, copy_mm, inherit}
use minix_rv.Proc.Fork.{copy_process, with_task, with_stack, with_pid, populate}
use minix_rv.Proc.Fork.Failed.{Restored, copy_process-Restored}
use minix_rv.Proc.Fork.Child.{Forked, copy_process-Forked}

abbrev no_tasks : PrioArray
no_tasks = record { nr_active = 0; bitmap = λ i. 0; queue = λ prio. [] }

abbrev idle_rq : Rq
idle_rq = record {
  nr_running = 0;
  nr_switches = 0;
  curr = some 0;
  idle = init_task;
  active = no_tasks;
  expired = no_tasks;
  clock = 0;
  tasks = λ p. blank_task;
}

-- `init_task` has the child 0 with PID 1, and that the child 1 with PID 2.
abbrev shells : ℕ → Process
shells p =
    if p == 0
    then record (blank) { pid = pos 1; parent = some init_task; children = 1 ∷ [] }
    else if p == 1
    then record (blank) { pid = pos 2; parent = some 0 }
    else if p == init_task
    then record (blank) { parent = some init_task; children = 0 ∷ [] }
    else blank

-- Task `p` runs.
abbrev pub running_as : ℕ → Kernel ℕ
running_as p = record {
  pids = record { pid_bitmap = λ i. if i == 0 then 7 else 0; last_pid = 2 };
  cache = record { task_cache = λ i. []; task_cache_bitmap = 3 };
  rq = idle_rq;
  procs = shells;
  task_table = λ i.
      if i == 0
      then some init_task
      else (if i == 1 then some 0 else (if i == 2 then some 1 else none));
  all_tasks = 0 ∷ 1 ∷ [];
  current_task_ptr = some p;
  pool = 0x80400000;
  mms = λ a. new_mm;
  files_count = λ a. 0;
  fs_count = λ a. 0;
  kfreed = [];
}

-- Stacks are taken one after the other; or there is none.
abbrev pub endless : Stacks ℕ
endless = record { alloc_stack = λ n. (n, n + 8192); free_stack = λ n a. n }

abbrev empty : Stacks ℕ
empty = record { alloc_stack = λ n. (0, n); free_stack = λ n a. n }

shell-IsValid : IsValid (running_as 0).pids
unfolding used test_bit
shell-IsValid = record { wide = λ i. ground arith; idle = refl }

abbrev none_left : Option ℕ × Kernel ℕ
none_left = copy_process empty 0 0 0 sigchld 0 none (running_as 0)

no_stack : copy_process empty 0 0 0 sigchld 0 none (running_as 0) ≡ (none, none_left.1)
unfolding copy_process with_task with_stack alloc_task_struct test_bit free_slot
no_stack = refl

copy_process-Restored_example : Restored empty (running_as 0) none_left.1
copy_process-Restored_example =
    copy_process-Restored empty 0 0 (running_as 0) shell-IsValid 0 sigchld 0 none none_left.1
      no_stack

abbrev forked : Option ℕ × Kernel ℕ
forked = copy_process endless 0 0 0 sigchld 0 none (running_as 0)

third : copy_process endless 0 0 0 sigchld 0 none (running_as 0) ≡ (some 2, forked.1)
unfolding copy_process with_task with_stack alloc_task_struct test_bit free_slot with_pid alloc_pid
    ffs_zero copy_mm populate inherit get_current
third = refl

in_use :
    get_current (running_as 0) < 64
    → test_bit (running_as 0).cache.task_cache_bitmap (get_current (running_as 0)) ≡ true
unfolding get_current test_bit
in_use h = refl

copy_process-Forked_example :
    (n : ℕ) × (0 < n) × (n < pid_max) × Forked 0 none (running_as 0) 2 n forked.1
copy_process-Forked_example =
    copy_process-Forked endless 0 0 (running_as 0) shell-IsValid in_use 0 sigchld 0 none 2 forked.1
      third
