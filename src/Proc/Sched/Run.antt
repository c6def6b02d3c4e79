-- ===== src/Proc/Sched/Run.antt =====
-- `schedule`, `scheduler_tick` and `task_timeslice` of kernel/sched_new.c.
use mathlib.Core.Path.{subst}
use minix_rv.Prelude.{
  ◌%◌, ℕ, ◌+◌, ◌-◌, ◌<◌, ◌≡◌, refl, sym, ap, ◌∙◌, ◌⊎◌, inl, inr, Bool, true, false, not, ◌&&◌,
  Option, some, pos, arith, ltb, ◌==◌, if◌then◌else◌, Bool-cases, Option-cases,
}
use minix_rv.Fs.Base.{update}
use minix_rv.Proc.Sched.{
  Task, u64_mod, account, charge, refill, scheduler_tick, Rq, max_prio, u32_mod, queue_of,
  dequeue_task, expire, add_task, leave, pick_next_task, switch_to, schedule, set_need_resched,
  task_timeslice, task_running,
}
use minix_rv.Proc.Sched.Queues.{IsArray, IsRq, queue_of-lt, add_task-IsArray}
use minix_rv.Proc.Sched.Dequeue.{IsOn, NotOn, dequeue_task-IsRq}
use minix_rv.Proc.Sched.Pick.{IsHead, NoTask, pick_next_task-IsHead}

-- `task_timeslice` for each priority from 0 below `MAX_PRIO`: 100 ticks below 100, then 130 -
-- `prio` down to 1 at 130, and above 130, where the difference wraps, 100 ticks again.
pub task_timeslice_lem :
    (prio : ℕ)
    → prio < max_prio
    → task_timeslice (pos prio) ≡ (
        if ltb prio 100
        then 100
        else if ltb prio 130
        then 130 - prio
        else if prio == 130
        then 1
        else 100)
unfolding task_timeslice
task_timeslice_lem prio h = ground arith

set_need_resched-arrays :
    (flag : Bool) (s : Rq) (p : ℕ)
    → ((set_need_resched flag s p).active ≡ s.active)
      × ((set_need_resched flag s p).expired ≡ s.expired)
unfolding set_need_resched
set_need_resched-arrays flag s p = elim (Bool-cases (s.tasks p).has_stack) [
  | inl here ↦ rw here (refl, refl)
  | inr gone ↦ rw gone (refl, refl)
]

set_need_resched-curr : (flag : Bool) (s : Rq) (p : ℕ) → (set_need_resched flag s p).curr ≡ s.curr
unfolding set_need_resched
set_need_resched-curr flag s p = elim (Bool-cases (s.tasks p).has_stack) [
  | inl here ↦ rw here refl
  | inr gone ↦ rw gone refl
]

same_task : (a b : ℕ) → (a == b) ≡ true → ◌≡◌ {A = Option ℕ} (some a) (some b)
same_task a b e = ground arith

switch_to-arrays :
    (s : Rq) (next : ℕ)
    → ((switch_to s next).active ≡ s.active)
      × ((switch_to s next).expired ≡ s.expired)
      × ((switch_to s next).curr ≡ some next)
unfolding switch_to
switch_to-arrays s next = elim (Option-cases s.curr) [
  | inl nobody ↦ rw (nobody, switch_to) (refl, refl, refl)
  | inr (prev, running) ↦
      rw (running, switch_to)
        (elim (Bool-cases (prev == next)) [
          | inl same ↦ rw same (
            (set_need_resched-arrays false s prev).0,
            (set_need_resched-arrays false s prev).1,
            set_need_resched-curr false s prev ∙ running ∙ same_task prev next same,
          )
          | inr other ↦ rw other (
            (set_need_resched-arrays false s prev).0,
            (set_need_resched-arrays false s prev).1,
            refl,
          )
        ])
]

dequeue_task-kept :
    (s : Rq) (p : ℕ)
    → ((dequeue_task s p).idle ≡ s.idle)
      × ((dequeue_task s p).expired.nr_active ≡ s.expired.nr_active)
unfolding dequeue_task
dequeue_task-kept s p = elim (Bool-cases (s.tasks p).on_rq) [
  | inl queued ↦ rw queued (refl, refl)
  | inr free ↦ rw free (refl, refl)
]

leave-idle : (s : Rq) → (leave s).idle ≡ s.idle
unfolding leave
leave-idle s = elim (Option-cases s.curr) [
  | inl nobody ↦ rw (nobody, leave) refl
  | inr (p, running) ↦
      rw (running, leave)
        (elim (Bool-cases (not ((s.tasks p).state == task_running) && (s.tasks p).on_rq)) [
          | inl sleeps ↦ rw sleeps (dequeue_task-kept s p).0
          | inr runs ↦ rw runs refl
        ])
]

-- The choice and the switch, from the state in which a task that cannot run has left.
chosen :
    (s : Rq) (idle : ℕ)
    → s.idle ≡ idle
    → IsRq s
    → (next : ℕ) × ((switch_to (pick_next_task s).1 (pick_next_task s).0).curr ≡ some next)
      × (IsHead (switch_to (pick_next_task s).1 (pick_next_task s).0).active next
          ⊎ ((next ≡ idle) × NoTask s.active × NoTask s.expired))
chosen s idle e v =
    let (active, expired, curr) = switch_to-arrays (pick_next_task s).1 (pick_next_task s).0 in
    (
      (pick_next_task s).0,
      curr,
      elim (pick_next_task-IsHead s v) [
        | inl (head, _) ↦ inl (subst (λ a. IsHead a (pick_next_task s).0) (sym active) head)
        | inr (same, none_active, none_expired, _) ↦ inr (same ∙ e, none_active, none_expired)
      ],
    )

-- Where the bitmaps and counters of both arrays are right once a task that cannot run has left,
-- the task that runs after `schedule` is at the head of the first queue of the active array that
-- is not empty; or it is the idle task, and no task was queued in either array.
pub schedule-IsHead :
    (s : Rq)
    → IsRq (leave s)
    → (next : ℕ) × ((schedule s).curr ≡ some next)
      × (IsHead (schedule s).active next
          ⊎ ((next ≡ s.idle) × NoTask (leave s).active × NoTask (leave s).expired))
unfolding schedule
schedule-IsHead s v = chosen (leave s) s.idle (leave-idle s) v

expire-queued :
    (s : Rq) (p : ℕ)
    → (s.tasks p).on_rq ≡ true
    → ((expire s p).active ≡ (dequeue_task s p).active)
      × ((expire s p).expired
          ≡ add_task (dequeue_task s p).expired (queue_of ((dequeue_task s p).tasks p).prio) p)
unfolding expire
expire-queued s p queued = rw queued (refl, refl)

expire-free : (s : Rq) (p : ℕ) → (s.tasks p).on_rq ≡ false → expire s p ≡ s
unfolding expire
expire-free s p free = rw free refl

-- At the end of its time slice, a task of the active array goes to the end of its queue of the
-- expired array; the bitmaps and counters stay right, while the counter does not overflow.
pub expire-IsRq :
    {s : Rq}
    → IsRq s
    → (p : ℕ) → (s.tasks p).on_rq ≡ true
    → IsOn s.active p (queue_of (s.tasks p).prio)
    → NotOn s.expired p
    → s.expired.nr_active + 1 < u32_mod
    → IsRq (expire s p)
expire-IsRq {s} v p queued on off room =
    let w = dequeue_task-IsRq v p on off in
    let (active, expired) = expire-queued s p queued in
    record {
      active = subst IsArray (sym active) w.active;
      expired = subst IsArray (sym expired) (
          add_task-IsArray w.expired (queue_of ((dequeue_task s p).tasks p).prio) p
            (queue_of-lt ((dequeue_task s p).tasks p).prio)
            (omega (arith, room, (dequeue_task-kept s p).1)));
    }

update-here : {A : Type 0} (f : ℕ → A) (i : ℕ) (a : A) → update f i a i ≡ a
update-here f i a = ground arith

-- What holds of the task that runs: while it is queued, it is in its queue of the active array only.
abbrev pub Runs : Rq → ℕ → Type 0
Runs s p =
    (s.tasks p).on_rq ≡ true → IsOn s.active p (queue_of (s.tasks p).prio) × NotOn s.expired p

expire-any :
    {s : Rq} → IsRq s → (p : ℕ) → Runs s p → s.expired.nr_active + 1 < u32_mod → IsRq (expire s p)
expire-any {s} v p runs room = elim (Bool-cases (s.tasks p).on_rq) [
  | inl queued ↦ expire-IsRq v p queued (runs queued).0 (runs queued).1 room
  | inr free ↦ subst IsRq (sym (expire-free s p free)) v
]

account-IsRq :
    {s : Rq} → IsRq s → (p : ℕ) → Runs s p → s.expired.nr_active + 1 < u32_mod → IsRq (account s p)
unfolding account
account-IsRq {s} v p runs room = elim (Bool-cases ((charge (s.tasks p)).time_slice == 0)) [
  | inl over ↦ rw over (
      let (active, expired) =
        set_need_resched-arrays true
          (expire (record s { tasks = update s.tasks p (refill (charge (s.tasks p))) }) p) p in
      let w =
        expire-any (moved (refill (charge (s.tasks p)))) p
          (still (refill (charge (s.tasks p))) refl refl) room in
      record {
        active = subst IsArray (sym active) w.active;
        expired = subst IsArray (sym expired) w.expired;
      })
  | inr left ↦ rw left (moved (charge (s.tasks p)))
]
  where
    moved : (t : Task) → IsRq (record s { tasks = update s.tasks p t })
    moved t = record { active = v.active; expired = v.expired }

    still :
        (t : Task)
        → t.on_rq ≡ (s.tasks p).on_rq
        → t.prio ≡ (s.tasks p).prio
        → Runs (record s { tasks = update s.tasks p t }) p
    still t on prio queued =
        let (inside, off) =
          runs (sym on ∙ ap (λ u. u.on_rq) (sym (update-here s.tasks p t)) ∙ queued) in
        (
          subst (λ z. IsOn s.active p (queue_of z))
              (sym prio ∙ ap (λ u. u.prio) (sym (update-here s.tasks p t))) inside,
          off,
        )

-- With the bitmaps and counters of both arrays right, `scheduler_tick` keeps them right, if the
-- task that runs is, while it is queued, in its queue of the active array only, and the counter
-- of the expired array does not overflow.
pub scheduler_tick-IsRq :
    {s : Rq}
    → IsRq s
    → ((p : ℕ) → s.curr ≡ some p → Runs s p)
    → s.expired.nr_active + 1 < u32_mod
    → IsRq (scheduler_tick s)
unfolding scheduler_tick
scheduler_tick-IsRq {s} v runs room = elim (Option-cases s.curr) [
  | inl nobody ↦ rw (nobody, scheduler_tick) clocked
  | inr (p, running) ↦
      rw (running, scheduler_tick)
        (elim (Bool-cases (p == s.idle)) [
          | inl idles ↦ rw idles clocked
          | inr works ↦ rw works (account-IsRq clocked p (runs p running) room)
        ])
]
  where
    clocked : IsRq (record s { clock = (s.clock + 1) % u64_mod })
    clocked = record { active = v.active; expired = v.expired }
