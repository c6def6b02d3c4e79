-- ===== src/Proc/Exit/Wait.antt =====
-- `do_wait` of kernel/exit.c: which child it takes, and what is left of it.
use minix_rv.Prelude.{
  ℤ, pos, negsuc, to_int, ℕ, List, [], ◌∷◌, ◌<◌, ◌≡◌, ◌≢◌, refl, sym, ◌∙◌, inl, inr, some, Bool,
  true, false, ◌==◌, Bool-cases, occurs, arith,
}
use mathlib.Core.Path.{subst}
use native.Mathlib.Decide.{ℕ_discrete}
use minix_rv.Proc.Process.{
  Kernel, Stacks, init_task, task_zombie, same_int, get_current, release_task,
}
use minix_rv.Proc.Exit.{returned, is_waited, find_zombie, finish_pass, wait_pass, do_exit}
use minix_rv.Proc.Exit.Reparent.{IsFamily, occurs-append}
use minix_rv.Proc.Exit.Exited.{Exited, do_exit-Exited}

-- In a list with `tsk`, a zombie and the only task with its PID.
module _ {A : Type 0} (k : Kernel A) (tsk n : ℕ) (positive : n ≢ 0)
    (has : (k.procs tsk).pid ≡ pos n) (only : (c : ℕ) → (k.procs c).pid ≡ pos n → c ≡ tsk)
    (zombie : (k.rq.tasks tsk).state ≡ task_zombie) (pgrp : ℤ) where
  same_int-eq : (x : ℤ) → same_int x (pos n) ≡ true → x ≡ pos n
  same_int-eq (pos a) h = ground arith
  same_int-eq (negsuc a) h = cc

  waited_self : is_waited (pos n) pgrp (k.procs tsk) ≡ true
  unfolding is_waited
  waited_self = ground (arith, has)

  waited_other : (c : ℕ) → c ≢ tsk → is_waited (pos n) pgrp (k.procs c) ≡ false
  unfolding is_waited
  waited_other c h =
      let z : (n == 0) ≡ false = ground arith in
      rw z (elim (Bool-cases (same_int (k.procs c).pid (pos n))) [
        | inl e ↦ absurd (h (only c (same_int-eq (k.procs c).pid e)))
        | inr e ↦ e
      ])

  find_zombie-only :
      (l : List ℕ) (found : Bool)
      → 0 < occurs tsk l
      → (found' : Bool) × (find_zombie (pos n) pgrp l found k ≡ (some tsk, found'))
  unfolding find_zombie
  find_zombie-only [] found h = absurd (omega arith)
  find_zombie-only (c ∷ l) found h = elim (ℕ_discrete c tsk) [
    | yes e ↦ (found, ground (arith, waited_self, zombie, e))
    | no e ↦
        let (found', rest) = find_zombie-only l found (ground (arith, e)) in
        (found', rw (waited_other c e) rest)
  ]

  wait_pass-only :
      (m : Stacks A) (q options : ℕ)
      → (k.procs q).pgrp ≡ pgrp
      → 0 < occurs tsk (k.procs q).children
      → wait_pass m q (pos n) options k
        ≡ returned (pos n) (some (k.procs tsk).exit_code) (release_task m tsk k)
  unfolding wait_pass finish_pass
  wait_pass-only m q options e h =
      let (found', it) = find_zombie-only (k.procs q).children false h in rw (e, it) (rw has refl)

module _ {A : Type 0} (m : Stacks A) (code : ℤ) (k : Kernel A) (family : IsFamily k.procs)
    (q n : ℕ) where
  -- The parent has the task as a child still.
  child-Exited :
      (tsk : ℕ) (k' : Kernel A)
      → Exited tsk (to_int code) k k'
      → q ≢ tsk
      → 0 < occurs tsk (k.procs q).children
      → 0 < occurs tsk (k'.procs q).children
  child-Exited tsk k' e other h = elim (ℕ_discrete q init_task) [
    | yes at ↦ ground (
      arith,
      e.ties.adopted,
      at,
      occurs-append tsk (k.procs init_task).children (k.procs tsk).children,
    )
    | no away ↦ ground (arith, e.ties.others q other away)
  ]

  -- Where the processes are a family, the task that runs is not `init_task`, has a PID above 0 that no
  -- other task has, and is a child of `q`: after its `do_exit`, which ends, a `do_wait` of `q` for
  -- this PID takes it at once, gives the PID and the exit code as an `int`, its
  -- lower 32 bits, and releases the task.
  pub wait_pass-do_exit :
      (options : ℕ)
      → get_current k ≢ init_task
      → q ≢ get_current k
      → 0 < occurs (get_current k) (k.procs q).children
      → n ≢ 0
      → (k.procs (get_current k)).pid ≡ pos n
      → ((c : ℕ) → (k.procs c).pid ≡ pos n → c ≡ get_current k)
      → (k' : Kernel A) × (do_exit code k ≡ some k')
        × (wait_pass m q (pos n) options k'
            ≡ returned (pos n) (some (to_int code)) (release_task m (get_current k) k'))
  wait_pass-do_exit options away other h positive has only =
      let (k', ends, e) = do_exit-Exited code k family away in
      (
        k',
        ends,
        subst
            (λ c.
              wait_pass m q (pos n) options k'
              ≡ returned (pos n) (some c) (release_task m (get_current k) k'))
            e.status
            (wait_pass-only k' (get_current k) n positive (e.pids (get_current k) ∙ has)
              (λ c i. only c (sym (e.pids c) ∙ i)) e.zombie (k'.procs q).pgrp m q options refl
              (child-Exited (get_current k) k' e other h)),
      )
