-- ===== src/Proc/Exit/Zombie.antt =====
-- A task that exits is a zombie: what the rest of `do_exit` of kernel/exit.c leaves alone.
use Prim.Native.Nat.{bit_or}
use minix_rv.Prelude.{
  ℤ, to_int, ℕ, zero, suc, ◌≡◌, ◌≢◌, refl, ap, ◌∙◌, inl, inr, Option, some, none, Bool, true, false,
  Bool-cases, Option-cases, ◌&&◌, ◌==◌, arith,
}
use minix_rv.Fs.Base.{update}
use minix_rv.Proc.Process.{
  Kernel, task_zombie, is_sleeping, is_task, edit, reschedule, wake, wakeup_task, wakeup_from,
  wakeup,
}
use minix_rv.Proc.Exit.{
  pf_exiting, notify, exit_release, exit_mm, exit_files, exit_fs, exit_sighand,
}
use minix_rv.Proc.Sched.{
  Rq, Task, task_running, enqueue_task, dequeue_task, set_need_resched, leave, switch_to,
  pick_next_task, swap_arrays, schedule, preempt, wake_up_process,
}

enqueue_task-state : (s : Rq) (p q : ℕ) → ((enqueue_task s p).tasks q).state ≡ (s.tasks q).state
unfolding enqueue_task
enqueue_task-state s p q = ground arith

dequeue_task-state : (s : Rq) (p q : ℕ) → ((dequeue_task s p).tasks q).state ≡ (s.tasks q).state
unfolding dequeue_task
dequeue_task-state s p q = ground arith

set_need_resched-state :
    (b : Bool) (s : Rq) (p q : ℕ) → ((set_need_resched b s p).tasks q).state ≡ (s.tasks q).state
unfolding set_need_resched
set_need_resched-state b s p q = ground arith

leave-state : (s : Rq) (q : ℕ) → ((leave s).tasks q).state ≡ (s.tasks q).state
unfolding leave
leave-state s q = elim (Option-cases s.curr) [
  | inl e ↦ rw e
  | inr (p, e) ↦ rw e (ground (arith, dequeue_task-state s p q))
]

switch_to-state : (s : Rq) (next q : ℕ) → ((switch_to s next).tasks q).state ≡ (s.tasks q).state
unfolding switch_to
switch_to-state s next q = elim (Option-cases s.curr) [
  | inl e ↦ rw e
  | inr (p, e) ↦ rw e (ground (arith, set_need_resched-state false s p q))
]

pub schedule-state : (s : Rq) (q : ℕ) → ((schedule s).tasks q).state ≡ (s.tasks q).state
unfolding schedule pick_next_task swap_arrays
schedule-state s q = ground (
  arith,
  leave-state s q,
  switch_to-state (pick_next_task (leave s)).1 (pick_next_task (leave s)).0 q,
)

preempt-state : (s : Rq) (p q : ℕ) → ((preempt s p).tasks q).state ≡ (s.tasks q).state
unfolding preempt
preempt-state s p q = elim (Option-cases s.curr) [
  | inl e ↦ rw e
  | inr (c, e) ↦ rw e (ground (arith, set_need_resched-state true s c q))
]

-- The task woken, and queued if it is not.
abbrev woken : Rq → ℕ → Rq
woken s p = record s { tasks = update s.tasks p (record (s.tasks p) { state = task_running }) }

pub wake_up_process-state :
    (s : Rq) (p q : ℕ) → p ≢ q → ((wake_up_process s p).1.tasks q).state ≡ (s.tasks q).state
unfolding wake_up_process
wake_up_process-state s p q h = ground (
  arith,
  preempt-state (woken s p) p q,
  preempt-state (enqueue_task (woken s p) p) p q,
  enqueue_task-state (woken s p) p q,
)

sleeping-zombie : (t : Task) (b : Bool) → is_sleeping t && b ≡ true → t.state ≢ task_zombie
sleeping-zombie t b h e = ground arith

-- What waking and switching do not change: a zombie, and what ties the processes.
pub record Spares {A : Type 0} (tsk : ℕ) (k k' : Kernel A) : Type 0 where
  pub zombie : (k.rq.tasks tsk).state ≡ task_zombie → (k'.rq.tasks tsk).state ≡ task_zombie
  pub children : (q : ℕ) → (k'.procs q).children ≡ (k.procs q).children
  pub parent : (q : ℕ) → (k'.procs q).parent ≡ (k.procs q).parent
  pub pid : (q : ℕ) → (k'.procs q).pid ≡ (k.procs q).pid
  pub exit_code : (q : ℕ) → (k'.procs q).exit_code ≡ (k.procs q).exit_code

module _ {A : Type 0} (tsk : ℕ) where
  pub Spares-same : (k : Kernel A) → Spares tsk k k
  Spares-same k = record {
    zombie = λ z. z;
    children = λ q. refl;
    parent = λ q. refl;
    pid = λ q. refl;
    exit_code = λ q. refl;
  }

  pub Spares-trans : {k k' k'' : Kernel A} → Spares tsk k k' → Spares tsk k' k'' → Spares tsk k k''
  Spares-trans a b = record {
    zombie = λ z. b.zombie (a.zombie z);
    children = λ q. b.children q ∙ a.children q;
    parent = λ q. b.parent q ∙ a.parent q;
    pid = λ q. b.pid q ∙ a.pid q;
    exit_code = λ q. b.exit_code q ∙ a.exit_code q;
  }

  wakeup_task-Spares : (chan p : ℕ) (k : Kernel A) → Spares tsk k (wakeup_task chan k p)
  unfolding wakeup_task wake
  wakeup_task-Spares chan p k =
      elim (Bool-cases (is_sleeping (k.rq.tasks p) && is_task (k.procs p).chan chan)) [
        | inl asleep ↦ rw asleep (record {
          zombie = λ z.
              wake_up_process-state k.rq p tsk (λ e.
                sleeping-zombie (k.rq.tasks p) _ asleep (ap (λ r. (k.rq.tasks r).state) e ∙ z))
              ∙ z;
          children = λ q. ground arith;
          parent = λ q. ground arith;
          pid = λ q. ground arith;
          exit_code = λ q. ground arith;
        })
        | inr awake ↦ rw awake (Spares-same k)
      ]

  wakeup_from-Spares : (n i chan : ℕ) (k : Kernel A) → Spares tsk k (wakeup_from n i chan k)
  unfolding wakeup_from
  wakeup_from-Spares zero i chan k = Spares-same k
  wakeup_from-Spares (suc n) i chan k = elim (Option-cases (k.task_table i)) [
    | inl e ↦ rw e (wakeup_from-Spares n (suc i) chan k)
    | inr (p, e) ↦ rw e (
        Spares-trans (wakeup_task-Spares chan p k)
          (wakeup_from-Spares n (suc i) chan (wakeup_task chan k p)))
  ]

  pub notify-Spares : (parent : Option ℕ) (k : Kernel A) → Spares tsk k (notify tsk parent k)
  unfolding notify wakeup
  notify-Spares none k = Spares-same k
  notify-Spares (some q) k = elim (Bool-cases (q == tsk)) [
    | inl own ↦ rw own (Spares-same k)
    | inr other ↦ rw other (wakeup_from-Spares 64 0 q k)
  ]

  pub reschedule-Spares : (k : Kernel A) → Spares tsk k (reschedule k)
  unfolding reschedule
  reschedule-Spares k = record {
    zombie = λ z. schedule-state k.rq tsk ∙ z;
    children = λ q. refl;
    parent = λ q. refl;
    pid = λ q. refl;
    exit_code = λ q. refl;
  }

module _ {A : Type 0} (tsk : ℕ) where
  exit_mm-Spares : (k : Kernel A) → Spares tsk k (exit_mm tsk k)
  unfolding exit_mm
  exit_mm-Spares k = record {
    zombie = λ z. ground arith;
    children = λ q. ground arith;
    parent = λ q. ground arith;
    pid = λ q. ground arith;
    exit_code = λ q. ground arith;
  }

  exit_files-Spares : (k : Kernel A) → Spares tsk k (exit_files tsk k)
  unfolding exit_files
  exit_files-Spares k = record {
    zombie = λ z. z;
    children = λ q. ground arith;
    parent = λ q. ground arith;
    pid = λ q. ground arith;
    exit_code = λ q. ground arith;
  }

  exit_fs-Spares : (k : Kernel A) → Spares tsk k (exit_fs tsk k)
  unfolding exit_fs
  exit_fs-Spares k = record {
    zombie = λ z. z;
    children = λ q. ground arith;
    parent = λ q. ground arith;
    pid = λ q. ground arith;
    exit_code = λ q. ground arith;
  }

  exit_sighand-Spares : (k : Kernel A) → Spares tsk k (exit_sighand tsk k)
  unfolding exit_sighand
  exit_sighand-Spares k = record {
    zombie = λ z. z;
    children = λ q. ground arith;
    parent = λ q. ground arith;
    pid = λ q. ground arith;
    exit_code = λ q. ground arith;
  }

  -- With its code set, the task that exits.
  abbrev pub marked : ℤ → Kernel A → Kernel A
  marked code k = edit k tsk (record (k.procs tsk) {
    flags = bit_or (k.procs tsk).flags pf_exiting;
    exit_code = to_int code;
  })

  pub exit_release-Spares :
      (code : ℤ) (k : Kernel A) → Spares tsk (marked code k) (exit_release code tsk k)
  unfolding exit_release
  exit_release-Spares code k =
      let a = marked code k in
      Spares-trans tsk (exit_mm-Spares a) (
        Spares-trans tsk (exit_files-Spares (exit_mm tsk a)) (
          Spares-trans tsk (exit_fs-Spares (exit_files tsk (exit_mm tsk a)))
            (exit_sighand-Spares (exit_fs tsk (exit_files tsk (exit_mm tsk a))))))
