-- ===== src/Proc/Exit/Exited.antt =====
-- `do_exit` of kernel/exit.c as a whole.
use minix_rv.Prelude.{ℤ, to_int, ℕ, List, [], ◌∷◌, ◌≡◌, ◌≢◌, refl, ◌∙◌, some, false, ◌==◌, arith}
use minix_rv.Proc.Process.{
  Kernel, Process, init_task, task_zombie, set_state, get_current, reschedule,
}
use minix_rv.Proc.Exit.{
  exit_release, exit_notify, reparent, notify_parent, become_zombie, do_exit, adopt, adopt_all,
}
use minix_rv.Proc.Exit.Reparent.{IsFamily, Reparented, adopt_all-Reparented}
use minix_rv.Proc.Exit.Zombie.{
  Spares, Spares-trans, marked, exit_release-Spares, notify-Spares, reschedule-Spares,
}

-- The moves of the children keep the PIDs and the exit codes.
adopt_all-pid :
    (l : List ℕ) (procs : ℕ → Process) (q : ℕ) → (adopt_all l procs q).pid ≡ (procs q).pid
unfolding adopt_all adopt
adopt_all-pid [] procs q = refl
adopt_all-pid (child ∷ l) procs q = adopt_all-pid l (adopt child procs) q ∙ ground arith

adopt_all-exit_code :
    (l : List ℕ) (procs : ℕ → Process) (q : ℕ)
    → (adopt_all l procs q).exit_code ≡ (procs q).exit_code
unfolding adopt_all adopt
adopt_all-exit_code [] procs q = refl
adopt_all-exit_code (child ∷ l) procs q = adopt_all-exit_code l (adopt child procs) q ∙ ground arith

-- The same ties, of all processes.
module _ (procs procs' : ℕ → Process)
    (children : (q : ℕ) → (procs' q).children ≡ (procs q).children)
    (parent : (q : ℕ) → (procs' q).parent ≡ (procs q).parent) where
  IsFamily-same : IsFamily procs → IsFamily procs'
  IsFamily-same f = record {
    named = λ q p h. parent p ∙ f.named q p (ground (arith, children q));
    once = λ q p. rw (children q) (f.once q p);
  }

  Reparented-before : (tsk : ℕ) (r : ℕ → Process) → Reparented tsk procs' r → Reparented tsk procs r
  Reparented-before tsk r h = record {
    family = h.family;
    left = h.left;
    adopted = ground (arith, h.adopted, children init_task, children tsk);
    others = λ q a b. h.others q a b ∙ children q;
    parents = λ p. ground (arith, h.parents p, parent p, children tsk);
  }

  Reparented-after : (tsk : ℕ) (r : ℕ → Process) → Reparented tsk r procs → Reparented tsk r procs'
  Reparented-after tsk r h = record {
    family = IsFamily-same h.family;
    left = children tsk ∙ h.left;
    adopted = children init_task ∙ h.adopted;
    others = λ q a b. children q ∙ h.others q a b;
    parents = λ p. parent p ∙ h.parents p;
  }

-- What is left of a task that exited.
pub record Exited {A : Type 0} (tsk : ℕ) (code : ℤ) (k k' : Kernel A) : Type 0 where
  pub zombie : (k'.rq.tasks tsk).state ≡ task_zombie
  pub status : (k'.procs tsk).exit_code ≡ code
  pub pids : (q : ℕ) → (k'.procs q).pid ≡ (k.procs q).pid
  pub ties : Reparented tsk k.procs k'.procs

module _ {A : Type 0} (tsk : ℕ) (other : tsk ≢ init_task) where
  -- The children given away.
  abbrev orphaned : List ℕ → Kernel A → Kernel A
  orphaned l k = record k { procs = adopt_all l k.procs }

  reparent-some : (l : List ℕ) (k : Kernel A) → reparent tsk l k ≡ some (orphaned l k)
  unfolding reparent adopt_all
  reparent-some [] k = refl
  reparent-some (child ∷ l) k = let e : (tsk == init_task) ≡ false = ground arith in rw e

  -- The kernel before the parent is told.
  abbrev dead : ℤ → Kernel A → Kernel A
  dead code k =
      let k1 = exit_release code tsk k in
      set_state (orphaned (k1.procs tsk).children k1) tsk task_zombie

  dead-Exited :
      (code : ℤ) (k : Kernel A) → IsFamily k.procs → Exited tsk (to_int code) k (dead code k)
  dead-Exited code k family =
      let s : Spares tsk (marked tsk code k) (exit_release code tsk k) =
        exit_release-Spares tsk code k in
      record {
        zombie = ground arith;
        status =
            adopt_all-exit_code ((exit_release code tsk k).procs tsk).children
              (exit_release code tsk k).procs tsk
            ∙ s.exit_code tsk
            ∙ ground arith;
        pids = λ q.
            adopt_all-pid ((exit_release code tsk k).procs tsk).children
              (exit_release code tsk k).procs q
            ∙ s.pid q
            ∙ ground arith;
        ties =
            Reparented-before k.procs (exit_release code tsk k).procs
              (λ q. s.children q ∙ ground arith) (λ q. s.parent q ∙ ground arith) tsk
              (dead code k).procs
              (adopt_all-Reparented tsk other ((exit_release code tsk k).procs tsk).children
                (exit_release code tsk k).procs
                (IsFamily-same k.procs (exit_release code tsk k).procs
                  (λ q. s.children q ∙ ground arith) (λ q. s.parent q ∙ ground arith) family)
                refl);
      }

  Exited-Spares :
      (code : ℤ) (k k' k'' : Kernel A)
      → Exited tsk code k k'
      → Spares tsk k' k''
      → Exited tsk code k k''
  Exited-Spares code k k' k'' e s = record {
    zombie = s.zombie e.zombie;
    status = s.exit_code tsk ∙ e.status;
    pids = λ q. s.pid q ∙ e.pids q;
    ties = Reparented-after k'.procs k''.procs s.children s.parent tsk k.procs e.ties;
  }

  become_zombie-Exited :
      (code : ℤ) (k : Kernel A)
      → IsFamily k.procs
      → (k' : Kernel A) × (become_zombie tsk (exit_notify tsk (exit_release code tsk k)) ≡ some k')
        × Exited tsk (to_int code) k k'
  unfolding become_zombie exit_notify notify_parent
  become_zombie-Exited code k family = (
    reschedule (notify_parent tsk (dead code k)),
    rw (reparent-some ((exit_release code tsk k).procs tsk).children (exit_release code tsk k)),
    Exited-Spares (to_int code) k (dead code k) (reschedule (notify_parent tsk (dead code k)))
        (dead-Exited code k family)
        (Spares-trans tsk (notify-Spares tsk ((dead code k).procs tsk).parent (dead code k))
          (reschedule-Spares tsk (notify_parent tsk (dead code k)))),
  )

-- Where every child names the task in whose list it is, and is there once, and the task that runs is
-- not `init_task`: `do_exit` ends, and leaves the task as a zombie with the
-- code as an `int`, its lower 32 bits, and all PIDs as they were; the
-- children of the task are those of `init_task`, behind those that it had and in their order, and
-- name it as their parent; every other list and parent is as before, and the condition holds again.
pub do_exit-Exited :
    {A : Type 0} (code : ℤ) (k : Kernel A)
    → IsFamily k.procs
    → get_current k ≢ init_task
    → (k' : Kernel A) × (do_exit code k ≡ some k') × Exited (get_current k) (to_int code) k k'
unfolding do_exit
do_exit-Exited code k family other = become_zombie-Exited (get_current k) other code k family
