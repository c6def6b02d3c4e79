-- ===== src/Proc/Sched.antt =====
-- The run queue of kernel/sched_new.c. A task is the number of its `task_struct`; the fields of all of
-- them are in the state. A circular list of include/minix/sched.h is the list of its members from the
-- head on. The lock, the saving of interrupts and `context_switch` are not modelled: each function
-- runs as a whole.
mod Arrays
pub mod First
pub mod Queues
pub mod Pick
pub mod Dequeue
pub mod Run
mod Tests
unfoldable pub use Arrays.*
use minix_rv.Prelude.{
  ℕ, zero, suc, ◌+◌, ◌-◌, ◌*◌, ◌/◌, ◌%◌, ◌^◌, List, [], ◌∷◌, ◌++◌, Bool, true, false, not, ◌&&◌,
  ◌||◌, Option, none, some, ℤ, pos, negsuc, leb, ltb, ◌==◌, if◌then◌else◌,
}
use minix_rv.Fs.Base.{update}
use minix_rv.Proc.Word.{test_bit, set_bit, clear_bit}

-- `pick_next_task` first swaps the arrays if nothing is counted as active.
unfoldable pub swap_arrays : Rq → Rq
swap_arrays s =
    if s.active.nr_active == 0 then record s { active = s.expired; expired = s.active } else s

abbrev pub first_task : List ℕ → ℕ → ℕ
first_task [] idle = idle
first_task (p ∷ s) idle = p

-- The choice from the active array.
unfoldable pub pick_active : PrioArray → ℕ → ℕ
unfolding find_first_bit
pick_active a idle =
    if a.nr_active == 0
    then idle
    else if leb max_prio (find_first_bit a.bitmap max_prio)
    then idle
    else first_task (a.queue (find_first_bit a.bitmap max_prio)) idle

unfoldable pub pick_next_task : Rq → ℕ × Rq
unfolding pick_active swap_arrays
pick_next_task s = (pick_active (swap_arrays s).active s.idle, swap_arrays s)

-- `DEF_TIMESLICE - nice` as an `unsigned long`, for a priority of at least 100.
abbrev pub scaled : ℕ → ℕ
scaled prio = (u64_mod + def_timeslice + default_prio - prio) % u64_mod

-- The two bounds in their order.
abbrev pub bounded : ℕ → ℕ
bounded slice =
    if ltb slice min_timeslice
    then min_timeslice
    else if ltb max_timeslice slice
    then max_timeslice
    else slice

unfoldable pub task_timeslice : ℤ → ℕ
task_timeslice (negsuc n) = max_timeslice
task_timeslice (pos prio) = if ltb prio 100 then max_timeslice else bounded (scaled prio)

unfoldable pub set_need_resched : Bool → Rq → ℕ → Rq
set_need_resched flag s p =
    if (s.tasks p).has_stack
    then record s { tasks = update s.tasks p (record (s.tasks p) { need_resched = flag }) }
    else s

-- The move of `scheduler_tick` from the active to the expired array.
unfoldable pub expire : Rq → ℕ → Rq
unfolding dequeue_task queue_of
expire s p =
    if (s.tasks p).on_rq
    then (let s' = dequeue_task s p in
        record s' {
          expired = add_task s'.expired (queue_of (s'.tasks p).prio) p;
          nr_running = (s'.nr_running + 1) % u64_mod;
          tasks = update s'.tasks p (record (s'.tasks p) { on_rq = true });
        })
    else s

-- `stime++`, and the time slice counted down to 0.
abbrev pub charge : Task → Task
charge t = record t { stime = (t.stime + 1) % u64_mod; time_slice = t.time_slice - 1 }

abbrev pub refill : Task → Task
refill t = record t { time_slice = task_timeslice t.prio }

-- The tick for the task that runs.
unfoldable pub account : Rq → ℕ → Rq
account s p =
    let s' = record s { tasks = update s.tasks p (charge (s.tasks p)) } in
    if (charge (s.tasks p)).time_slice == 0
    then set_need_resched true
        (expire (record s { tasks = update s.tasks p (refill (charge (s.tasks p))) }) p) p
    else s'

unfoldable pub scheduler_tick : Rq → Rq
scheduler_tick s =
    let s' = record s { clock = (s.clock + 1) % u64_mod } in
    elim s.curr [ none ↦ s' | some p ↦ if p == s.idle then s' else account s' p ]

-- `schedule` before it chooses: a task that cannot run leaves the queue.
unfoldable pub leave : Rq → Rq
unfolding dequeue_task
leave s = elim s.curr [
  | none ↦ s
  | some p ↦
      if not ((s.tasks p).state == task_running) && (s.tasks p).on_rq then dequeue_task s p else s
]

-- The rest of `schedule`, up to the call of `context_switch`.
unfoldable pub switch_to : Rq → ℕ → Rq
unfolding set_need_resched
switch_to s next = elim s.curr [
  | none ↦ record s { nr_switches = (s.nr_switches + 1) % u64_mod; curr = some next }
  | some prev ↦
      let s' = set_need_resched false s prev in
      if prev == next
      then s'
      else record s' { nr_switches = (s.nr_switches + 1) % u64_mod; curr = some next }
]

unfoldable pub schedule : Rq → Rq
unfolding leave pick_next_task switch_to
schedule s = let (next, s') = pick_next_task (leave s) in switch_to s' next

-- `a < b`, of priorities.
abbrev pub before : ℤ → ℤ → Bool
before (pos a) (pos b) = ltb a b
before (pos a) (negsuc b) = false
before (negsuc a) (pos b) = true
before (negsuc a) (negsuc b) = ltb b a

unfoldable pub preempt : Rq → ℕ → Rq
unfolding set_need_resched
preempt s p = elim s.curr [
  | none ↦ s
  | some c ↦ if before (s.tasks p).prio (s.tasks c).prio then set_need_resched true s c else s
]

-- The result is 1 where the task was woken.
unfoldable pub wake_up_process : Rq → ℕ → ℕ × Rq
unfolding enqueue_task preempt
wake_up_process s p =
    if (s.tasks p).state == task_running
    then (0, s)
    else (let s' = record s {
      tasks = update s.tasks p (record (s.tasks p) { state = task_running });
    } in
        let s'' = if (s.tasks p).on_rq then s' else enqueue_task s' p in (1, preempt s'' p))

unfoldable pub wake_up_new_task : Rq → ℕ → Rq
unfolding enqueue_task task_timeslice
wake_up_new_task s p =
    enqueue_task
      (record s {
        tasks = update s.tasks p (record (s.tasks p) {
          state = task_running;
          time_slice = task_timeslice (s.tasks p).prio;
        });
      })
      p
