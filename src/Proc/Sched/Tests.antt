-- ===== src/Proc/Sched/Tests.antt =====
-- Small run queues of kernel/sched_new.c, and the theorems at them.
use mathlib.Core.Path.{subst}
use minix_rv.Prelude.{ℕ, ◌≡◌, ◌⊎◌, refl, [], true, false, some, pos, arith}
use minix_rv.Proc.Word.{test_bit-zero}
use minix_rv.Proc.Sched.{
  scheduler_tick, Rq, PrioArray, Task, add_task, queue_of, dequeue_task, pick_next_task, schedule,
  leave,
}
use minix_rv.Proc.Sched.First.{bit_of}
use minix_rv.Proc.Sched.Queues.{IsArray, IsRq, add_task-IsArray}
use minix_rv.Proc.Sched.Pick.{IsHead, NoTask, pick_next_task-IsHead}
use minix_rv.Proc.Sched.Dequeue.{IsOn, NotOn, dequeue_task-IsRq, dequeue_task-expired}
use minix_rv.Proc.Sched.Run.{schedule-IsHead, Runs, scheduler_tick-IsRq}

abbrev normal : Task
normal = record {
  state = 0;
  on_rq = true;
  prio = pos 120;
  time_slice = 1;
  stime = 0;
  has_stack = true;
  need_resched = false;
}

abbrev nothing : PrioArray
nothing = record { nr_active = 0; bitmap = λ i. 0; queue = λ q. [] }

-- The task `p` alone, in the queue 120.
abbrev one : ℕ → PrioArray
one p = add_task nothing 120 p

abbrev queues : PrioArray → PrioArray → Rq
queues active expired = record {
  nr_running = 2;
  nr_switches = 0;
  curr = some 7;
  idle = 0;
  active = active;
  expired = expired;
  clock = 0;
  tasks = λ p. normal;
}

nothing-IsArray : IsArray nothing
unfolding bit_of
nothing-IsArray = record { bits = λ q lt. test_bit-zero _; count = refl }

one-IsArray : (p : ℕ) → IsArray (one p)
one-IsArray p = add_task-IsArray nothing-IsArray 120 p (omega arith) (omega arith)

ready-IsRq : IsRq (queues (one 7) nothing)
ready-IsRq = record { active = one-IsArray 7; expired = nothing-IsArray }

slept-IsRq : IsRq (queues (one 8) (one 7))
slept-IsRq = record { active = one-IsArray 8; expired = one-IsArray 7 }

one-IsOn : IsOn (one 7) 7 (queue_of (pos 120))
unfolding queue_of
one-IsOn = (omega arith, λ q lt ne. ground arith)

nothing-NotOn : NotOn nothing 7
nothing-NotOn q lt = refl

other-NotOn : NotOn (one 8) 7
other-NotOn q lt = ground arith

seven-Runs : (p : ℕ) → some 7 ≡ some p → Runs (queues (one 7) nothing) p
seven-Runs p e = subst (Runs (queues (one 7) nothing)) seven (λ _. (one-IsOn, nothing-NotOn))
  where
    seven : 7 ≡ p
    seven = cc

pick_next_task-IsHead_example :
    let (next, s') = pick_next_task (queues (one 7) nothing) in
    (IsHead s'.active next
      × ((s' ≡ queues (one 7) nothing) ⊎ (NoTask (one 7) × (s' ≡ queues nothing (one 7)))))
    ⊎ ((next ≡ 0) × NoTask (one 7) × NoTask nothing × (s' ≡ queues nothing (one 7)))
pick_next_task-IsHead_example = pick_next_task-IsHead (queues (one 7) nothing) ready-IsRq

dequeue_task-IsRq_example : IsRq (dequeue_task (queues (one 7) nothing) 7)
dequeue_task-IsRq_example = dequeue_task-IsRq ready-IsRq 7 one-IsOn nothing-NotOn

dequeue_task-expired_example :
    (¬ IsArray (dequeue_task (queues (one 8) (one 7)) 7).active)
    × (¬ IsArray (dequeue_task (queues (one 8) (one 7)) 7).expired)
dequeue_task-expired_example =
    dequeue_task-expired slept-IsRq 7 refl one-IsOn other-NotOn (omega arith)

scheduler_tick-IsRq_example : IsRq (scheduler_tick (queues (one 7) nothing))
scheduler_tick-IsRq_example = scheduler_tick-IsRq ready-IsRq (λ p e. seven-Runs p e) (omega arith)

stays : IsRq (leave (queues (one 7) nothing))
unfolding leave
stays = ready-IsRq

schedule-IsHead_example :
    (next : ℕ) × ((schedule (queues (one 7) nothing)).curr ≡ some next)
    × (IsHead (schedule (queues (one 7) nothing)).active next
        ⊎ ((next ≡ 0)
            × NoTask (leave (queues (one 7) nothing)).active
            × NoTask (leave (queues (one 7) nothing)).expired))
schedule-IsHead_example = schedule-IsHead (queues (one 7) nothing) stays
