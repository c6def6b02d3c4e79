-- ===== src/Proc/Exit.antt =====
-- kernel/exit.c: the end of a process, and waiting for it.
pub mod Reparent
pub mod Zombie
pub mod Exited
pub mod Release
pub mod Wait
mod Tests
use Prim.Native.Nat.{bit_and, bit_or}
use minix_rv.Prelude.{
  ℕ, zero, suc, ◌+◌, ◌-◌, ◌*◌, ◌/◌, ◌%◌, ◌^◌, Bool, true, false, ◌&&◌, ◌||◌, not, Option, none,
  some, ℤ, pos, negsuc, to_int, List, [], ◌∷◌, ◌++◌, remove, ltb, ◌==◌, if◌then◌else◌,
}
use minix_rv.Fs.Base.{update}
use minix_rv.Proc.Process.{
  Kernel, Process, MmStruct, Stacks, edit, set_state, u32, init_task, task_zombie,
  task_interruptible, same_int, get_current, reschedule, wakeup, unlink_child, release_task,
  kill_process,
}

abbrev pub echild : ℤ
echild = negsuc 9

abbrev pub eintr : ℤ
eintr = negsuc 3

abbrev pub wnohang : ℕ
wnohang = 1

abbrev pub pf_exiting : ℕ
pf_exiting = 4

-- `atomic_dec_and_test` of a counter: what is left, and whether it is 0.
abbrev pub dec : ℕ → ℕ
dec n = (n + u32 - 1) % u32

-- A round of `exit_notify`: the child goes to the end of the children of `init_task`.
unfoldable pub adopt : ℕ → (ℕ → Process) → ℕ → Process
adopt child procs =
    let procs1 =
      update procs child
        (record (procs child) { parent = some init_task; real_parent = some init_task }) in
    let procs2 = unlink_child child procs1 in
    update procs2 init_task
      (record (procs2 init_task) { children = (procs2 init_task).children ++ child ∷ [] })

unfoldable pub adopt_all : List ℕ → (ℕ → Process) → ℕ → Process
unfolding adopt
adopt_all [] procs = procs
adopt_all (child ∷ l) procs = adopt_all l (adopt child procs)

-- The children that a call of `do_wait` is about.
unfoldable pub is_waited : ℤ → ℤ → Process → Bool
is_waited (pos pid) pgrp c = if pid == 0 then same_int c.pgrp pgrp else same_int c.pid (pos pid)
is_waited (negsuc zero) pgrp c = true
is_waited (negsuc (suc n)) pgrp c = same_int c.pgrp (pos (suc (suc n)))

-- What a pass of `do_wait` comes to: a result, with the status for `stat_addr`, or sleep.
pub data Pass (A : Type 0) : Type 0 where
  returned : ℤ → Option ℤ → Kernel A → Pass A
  asleep : Kernel A → Pass A

module _ {A : Type 0} where
  unfoldable pub mm_free : ℕ → Kernel A → Kernel A
  mm_free mm k = if mm == 0 then k else record k { kfreed = mm ∷ k.kfreed }

  unfoldable pub exit_mm : ℕ → Kernel A → Kernel A
  unfolding mm_free
  exit_mm tsk k =
      let mm = (k.procs tsk).mm in
      if mm == 0
      then k
      else (let users = dec (k.mms mm).mm_users in
          let k' = record (edit k tsk (record (k.procs tsk) { mm = 0 })) {
            mms = update k.mms mm (record (k.mms mm) { mm_users = users });
          } in
          if users == 0 then mm_free mm k' else k')

  unfoldable pub exit_files : ℕ → Kernel A → Kernel A
  exit_files tsk k =
      let files = (k.procs tsk).files in
      record (edit k tsk (record (k.procs tsk) {
        ofile = λ i. if ltb i 16 then 0 else (k.procs tsk).ofile i;
        files = 0;
      })) {
        files_count =
            if files == 0
            then k.files_count
            else update k.files_count files (dec (k.files_count files));
      }

  unfoldable pub exit_fs : ℕ → Kernel A → Kernel A
  exit_fs tsk k =
      let fs = (k.procs tsk).fs in
      record (edit k tsk (record (k.procs tsk) { fs = 0; cwd = 0 })) {
        fs_count = if fs == 0 then k.fs_count else update k.fs_count fs (dec (k.fs_count fs));
      }

  unfoldable pub exit_sighand : ℕ → Kernel A → Kernel A
  exit_sighand tsk k = edit k tsk (record (k.procs tsk) { blocked = 0; pending = 0 })

  -- `none` where the loop does not end: the children of `init_task` go behind those to come.
  unfoldable pub reparent : ℕ → List ℕ → Kernel A → Option (Kernel A)
  unfolding adopt_all
  reparent tsk [] k = some k
  reparent tsk (child ∷ l) k =
      if tsk == init_task then none else some (record k { procs = adopt_all (child ∷ l) k.procs })

  unfoldable pub exit_notify : ℕ → Kernel A → Option (Kernel A)
  unfolding reparent
  exit_notify tsk k = reparent tsk (k.procs tsk).children k

  -- The first steps of `do_exit`, up to the signals.
  unfoldable pub exit_release : ℤ → ℕ → Kernel A → Kernel A
  unfolding exit_mm exit_files exit_fs exit_sighand
  exit_release code tsk k = exit_sighand tsk (
      exit_fs tsk (
        exit_files tsk (
          exit_mm tsk (
            edit k tsk (record (k.procs tsk) {
              flags = bit_or (k.procs tsk).flags pf_exiting;
              exit_code = to_int code;
            })))))

  -- The parent that sleeps on its wait queue is woken.
  unfoldable pub notify : ℕ → Option ℕ → Kernel A → Kernel A
  unfolding wakeup
  notify tsk none k = k
  notify tsk (some q) k = if q == tsk then k else wakeup q k

  unfoldable pub notify_parent : ℕ → Kernel A → Kernel A
  unfolding notify
  notify_parent tsk k = notify tsk (k.procs tsk).parent k

  -- The steps behind `exit_notify`, up to the last call of `schedule`, behind which nothing of the
  -- task runs.
  unfoldable pub become_zombie : ℕ → Option (Kernel A) → Option (Kernel A)
  unfolding notify_parent
  become_zombie tsk none = none
  become_zombie tsk (some k) = some (reschedule (notify_parent tsk (set_state k tsk task_zombie)))

  unfoldable pub do_exit : ℤ → Kernel A → Option (Kernel A)
  unfolding exit_release exit_notify become_zombie get_current
  do_exit code k =
      let tsk = get_current k in become_zombie tsk (exit_notify tsk (exit_release code tsk k))

  -- `(error_code & 0xff) << 8`, for an `int`.
  unfoldable pub sys_exit : ℤ → Kernel A → Option (Kernel A)
  unfolding do_exit
  sys_exit (pos n) k = do_exit (pos (n % 256 * 256)) k
  sys_exit (negsuc n) k = do_exit (pos ((255 - n % 256) * 256)) k

  -- The loop of `do_wait`: the first such child that is a zombie, and whether there is such a child
  -- before it.
  unfoldable pub find_zombie : ℤ → ℤ → List ℕ → Bool → Kernel A → Option ℕ × Bool
  unfolding is_waited
  find_zombie pid pgrp [] found k = (none, found)
  find_zombie pid pgrp (c ∷ l) found k =
      let waited = is_waited pid pgrp (k.procs c) in
      let rest = find_zombie pid pgrp l (waited || found) k in
      if waited && (k.rq.tasks c).state == task_zombie then (some c, found) else rest

  module _ (m : Stacks A) where
    unfoldable pub finish_pass : ℕ → ℕ → Option ℕ × Bool → Kernel A → Pass A
    unfolding release_task
    finish_pass curr options (some c, found) k =
        returned (k.procs c).pid (some (k.procs c).exit_code) (release_task m c k)
    finish_pass curr options (none, false) k = returned echild none k
    finish_pass curr options (none, true) k =
        if not (bit_and options wnohang == 0)
        then returned (pos 0) none k
        else asleep (
            reschedule (
              set_state (edit k curr (record (k.procs curr) { chan = some curr })) curr
                task_interruptible))

    unfoldable pub wait_pass : ℕ → ℤ → ℕ → Kernel A → Pass A
    unfolding find_zombie finish_pass
    wait_pass curr pid options k =
        finish_pass curr options
          (find_zombie pid (k.procs curr).pgrp (k.procs curr).children false k) k

    -- The passes of `do_wait`. `others` are what the other tasks do until the caller runs again, each
    -- time it sleeps; `none` where it sleeps once more.
    unfoldable pub wait_passes :
        ℕ → ℤ → ℕ → List (Kernel A → Kernel A) → Kernel A → Option (ℤ × Option ℤ × Kernel A)
    unfolding wait_pass
    wait_passes curr pid options [] k = elim (wait_pass curr pid options k) [
      | returned r status k' ↦ some (r, status, k')
      | asleep k' ↦ none
    ]
    wait_passes curr pid options (other ∷ others) k = elim (wait_pass curr pid options k) [
      | returned r status k' ↦ some (r, status, k')
      | asleep k' ↦
          let again = wait_passes curr pid options others (other k') in
          if ((other k').procs curr).killed then some (eintr, none, other k') else again
    ]

    unfoldable pub do_wait :
        ℤ → ℕ → List (Kernel A → Kernel A) → Kernel A → Option (ℤ × Option ℤ × Kernel A)
    unfolding wait_passes get_current
    do_wait pid options others k = wait_passes (get_current k) pid options others k

  unfoldable pub sys_kill : ℤ → Kernel A → ℤ × Kernel A
  sys_kill (negsuc n) k = (pos 0, k)
  sys_kill (pos pid) k =
      if pid == 0
      then (pos 0, k)
      else (let (ok, k') = kill_process (pos pid) k in ((if ok then pos 0 else negsuc 0), k'))
