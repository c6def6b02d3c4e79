-- ===== src/Proc/Process.antt =====
-- Processes as kernel/fork.c, kernel/exit.c and kernel/sched_new.c share them: the tables, and sleeping, waking,
-- killing and releasing. A task is the number of its slot in `task_cache`, and `init_task` the number behind
-- them; what the scheduler uses of a task is in the run queue.
use minix_rv.Prelude.{
  ℕ, zero, suc, ◌^◌, Bool, true, false, ◌&&◌, ◌||◌, Option, none, some, ℤ, pos, negsuc, List,
  remove, ◌==◌, if◌then◌else◌,
}
use minix_rv.Fs.Base.{update}
use minix_rv.Mm.Buddy.{Buddy, alloc_pages, free_pages}
use minix_rv.Proc.Pid.{Pids, free_pid}
use minix_rv.Proc.Cache.{TaskCache, free_task_struct}
use minix_rv.Proc.Sched.{
  Task, Rq, task_running, schedule, enqueue_task, dequeue_task, wake_up_process,
}

abbrev pub max_procs : ℕ
max_procs = 64

abbrev pub task_interruptible : ℕ
task_interruptible = 1

abbrev pub task_uninterruptible : ℕ
task_uninterruptible = 2

abbrev pub task_zombie : ℕ
task_zombie = 4

abbrev pub init_task : ℕ
init_task = 64

-- The fields of `task_struct` that the scheduler does not use, with the words of the trap frame
-- on the stack. A pointer is an address, 0 for NULL; a pointer to a task is the task.
pub record Process : Type 0 where
  pub flags : ℕ
  pub static_prio : ℤ
  pub normal_prio : ℤ
  pub policy : ℕ
  pub pid : ℤ
  pub tgid : ℤ
  pub ppid : ℤ
  pub uid : ℕ
  pub euid : ℕ
  pub gid : ℕ
  pub egid : ℕ
  pub mm : ℕ
  pub active_mm : ℕ
  pub stack : ℕ
  pub trapframe : ℕ → ℕ
  pub context_ra : ℕ
  pub context_sp : ℕ
  pub kthread_fn : ℕ
  pub kthread_arg : ℕ
  pub fs : ℕ
  pub files : ℕ
  pub cwd : ℕ
  pub ofile : ℕ → ℕ
  pub blocked : ℕ
  pub pending : ℕ
  pub parent : Option ℕ
  pub real_parent : Option ℕ
  pub children : List ℕ
  pub pgrp : ℤ
  pub group_leader : Option ℕ
  pub chan : Option ℕ
  pub killed : Bool
  pub exit_code : ℤ
  pub exit_signal : ℤ
  pub comm : ℕ → ℕ

-- `struct mm_struct`: its two counters, the 11 bounds from `start_code` to `env_end`, and the map.
pub record MmStruct : Type 0 where
  pub mm_users : ℕ
  pub mm_count : ℕ
  pub bounds : ℕ → ℕ
  pub pgd : ℕ
  pub mmap : ℕ
  pub map_count : ℕ

-- The static variables of the three files and what they point to. `all_tasks` is the list from
-- `init_task.tasks` on, `current_task_ptr` the task that `get_current` looks for, and `kfreed` the
-- addresses given to `kfree`, the last first.
pub record Kernel (A : Type 0) : Type 0 where
  pub pids : Pids
  pub cache : TaskCache
  pub rq : Rq
  pub procs : ℕ → Process
  pub task_table : ℕ → Option ℕ
  pub all_tasks : List ℕ
  pub current_task_ptr : Option ℕ
  pub pool : A
  pub mms : ℕ → MmStruct
  pub files_count : ℕ → ℕ
  pub fs_count : ℕ → ℕ
  pub kfreed : List ℕ

-- The page allocator, for the two pages of a stack.
pub record Stacks (A : Type 0) : Type 0 where
  pub alloc_stack : A → ℕ × A
  pub free_stack : A → ℕ → A

abbrev pub buddy_stacks : Stacks Buddy
buddy_stacks = record {
  alloc_stack = λ s. alloc_pages s (pos 1);
  free_stack = λ s a. free_pages s a (pos 1);
}

abbrev pub u32 : ℕ
u32 = 2 ^ 32

abbrev pub same_int : ℤ → ℤ → Bool
same_int (pos a) (pos b) = a == b
same_int (negsuc a) (negsuc b) = a == b
same_int (pos a) (negsuc b) = false
same_int (negsuc a) (pos b) = false

abbrev pub is_task : Option ℕ → ℕ → Bool
is_task none p = false
is_task (some q) p = q == p

abbrev pub is_sleeping : Task → Bool
is_sleeping t = t.state == task_interruptible || t.state == task_uninterruptible

-- The first slot from `i` on that the test picks is set.
unfoldable pub set_first : ℕ → ℕ → (Option ℕ → Bool) → Option ℕ → (ℕ → Option ℕ) → ℕ → Option ℕ
set_first zero i test x table = table
set_first (suc n) i test x table =
    let rest = set_first n (suc i) test x table in if test (table i) then update table i x else rest

-- `list_del(&p->sibling)`: the task leaves the list of children that it is in.
abbrev pub unlink_child : ℕ → (ℕ → Process) → ℕ → Process
unlink_child p procs q = record (procs q) { children = remove p (procs q).children }

module _ {A : Type 0} where
  abbrev pub edit : Kernel A → ℕ → Process → Kernel A
  edit k p x = record k { procs = update k.procs p x }

  abbrev pub set_state : Kernel A → ℕ → ℕ → Kernel A
  set_state k p state = record k {
    rq = record (k.rq) { tasks = update k.rq.tasks p (record (k.rq.tasks p) { state = state }) };
  }

  unfoldable pub get_current : Kernel A → ℕ
  get_current k = elim k.current_task_ptr [ none ↦ init_task | some p ↦ p ]

  -- `schedule`, with its call of `set_current` where the task changes.
  unfoldable pub reschedule : Kernel A → Kernel A
  reschedule k =
      let rq' = schedule k.rq in
      record k {
        rq = rq';
        current_task_ptr = elim rq'.curr [
          | none ↦ k.current_task_ptr
          | some next ↦ if is_task k.rq.curr next then k.current_task_ptr else some next
        ];
      }

  unfoldable pub wake : Kernel A → ℕ → Kernel A
  wake k p = record k { rq = (wake_up_process k.rq p).1 }

  unfoldable pub yield_cpu : Kernel A → Kernel A
  unfolding reschedule get_current
  yield_cpu k =
      let curr = get_current k in
      let t = k.rq.tasks curr in
      reschedule (
        if t.state == task_running && t.on_rq
        then record k { rq = enqueue_task (dequeue_task k.rq curr) curr }
        else k)

  -- On the wait queue of a task, which stands for its address.
  unfoldable pub sleep_on : Kernel A → ℕ → Kernel A
  unfolding reschedule get_current
  sleep_on k chan =
      let p = get_current k in
      reschedule
        (set_state (edit k p (record (k.procs p) { chan = some chan })) p task_interruptible)

  unfoldable pub wakeup_task : ℕ → Kernel A → ℕ → Kernel A
  unfolding wake
  wakeup_task chan k p =
      if is_sleeping (k.rq.tasks p) && is_task (k.procs p).chan chan
      then wake (edit k p (record (k.procs p) { chan = none })) p
      else k

  -- The slots from `i` on, as many as are left.
  unfoldable pub wakeup_from : ℕ → ℕ → ℕ → Kernel A → Kernel A
  unfolding wakeup_task
  wakeup_from zero i chan k = k
  wakeup_from (suc n) i chan k =
      wakeup_from n (suc i) chan
        (elim (k.task_table i) [ none ↦ k | some p ↦ wakeup_task chan k p ])

  unfoldable pub wakeup : ℕ → Kernel A → Kernel A
  unfolding wakeup_from
  wakeup chan k = wakeup_from max_procs 0 chan k

  -- The first task with the PID, from the slot `i` on.
  unfoldable pub task_with_pid : ℕ → ℕ → ℤ → Kernel A → Option ℕ
  task_with_pid zero i pid k = none
  task_with_pid (suc n) i pid k =
      let rest = task_with_pid n (suc i) pid k in
      elim (k.task_table i) [
        | none ↦ rest
        | some p ↦ if same_int (k.procs p).pid pid then some p else rest
      ]

  -- `false` where there is no such process.
  unfoldable pub kill_process : ℤ → Kernel A → Bool × Kernel A
  unfolding task_with_pid wake
  kill_process pid k = elim (task_with_pid max_procs 0 pid k) [
    | none ↦ (false, k)
    | some p ↦
        let k' = edit k p (record (k.procs p) { killed = true }) in
        (true, if is_sleeping (k.rq.tasks p) then wake k' p else k')
  ]

  module _ (m : Stacks A) where
    unfoldable pub free_thread_info : ℕ → Kernel A → Kernel A
    free_thread_info ti k = if ti == 0 then k else record k { pool = m.free_stack k.pool ti }

    unfoldable pub free_task : ℕ → Kernel A → Kernel A
    free_task p k = record k { cache = free_task_struct k.cache (pos p) }

    unfoldable pub release_task : ℕ → Kernel A → Kernel A
    release_task p k =
        let k1 = record k {
          procs = unlink_child p k.procs;
          all_tasks = remove p k.all_tasks;
          task_table = set_first max_procs 0 (λ o. is_task o p) none k.task_table;
        } in
        let k2 = record k1 { pids = free_pid k1.pids (k1.procs p).pid } in
        free_task p (free_thread_info (k2.procs p).stack k2)
