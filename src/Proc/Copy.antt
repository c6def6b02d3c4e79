-- ===== src/Proc/Copy.antt =====
-- What a new process of kernel/fork.c gets: the parts that `copy_process` copies and sets, and a cleared task.
use Prim.Native.Nat.{bit_and}
use minix_rv.Prelude.{
  ℕ, zero, suc, ◌+◌, ◌-◌, ◌*◌, ◌%◌, Bool, true, false, not, Option, none, some, pos, negsuc, List,
  [], ◌∷◌, ◌++◌, ltb, ◌==◌, if◌then◌else◌,
}
use minix_rv.Fs.Base.{update}
use minix_rv.Proc.Sched.{Task, task_running, def_timeslice}
use minix_rv.Proc.Process.{Kernel, Process, MmStruct, edit, u32, max_procs, get_current, set_first}

abbrev pub clone_vm : ℕ
clone_vm = 0x100

abbrev pub clone_fs : ℕ
clone_fs = 0x200

abbrev pub clone_files : ℕ
clone_files = 0x400

abbrev pub clone_vfork : ℕ
clone_vfork = 0x4000

abbrev pub clone_thread : ℕ
clone_thread = 0x10000

abbrev pub pf_kthread : ℕ
pf_kthread = 1

abbrev pub pf_idle : ℕ
pf_idle = 0x100

abbrev pub sigchld : ℕ
sigchld = 17

abbrev pub thread_size : ℕ
thread_size = 8192

abbrev pub has_flag : ℕ → ℕ → Bool
has_flag flags bit = not (bit_and flags bit == 0)

-- The words `sp` and `a0` of a trap frame.
abbrev pub word_sp : ℕ
word_sp = 1

abbrev pub word_a0 : ℕ
word_a0 = 9

-- A task whose bytes are 0.
abbrev pub blank : Process
blank = record {
  flags = 0;
  static_prio = pos 0;
  normal_prio = pos 0;
  policy = 0;
  pid = pos 0;
  tgid = pos 0;
  ppid = pos 0;
  uid = 0;
  euid = 0;
  gid = 0;
  egid = 0;
  mm = 0;
  active_mm = 0;
  stack = 0;
  trapframe = λ i. 0;
  context_ra = 0;
  context_sp = 0;
  kthread_fn = 0;
  kthread_arg = 0;
  fs = 0;
  files = 0;
  cwd = 0;
  ofile = λ i. 0;
  blocked = 0;
  pending = 0;
  parent = none;
  real_parent = none;
  children = [];
  pgrp = pos 0;
  group_leader = none;
  chan = none;
  killed = false;
  exit_code = pos 0;
  exit_signal = pos 0;
  comm = λ i. 0;
}

abbrev pub blank_task : Task
blank_task = record {
  state = task_running;
  on_rq = false;
  prio = pos 0;
  time_slice = 0;
  stime = 0;
  has_stack = false;
  need_resched = false;
}

-- What `mm_alloc` leaves in the memory that it was given.
abbrev pub new_mm : MmStruct
new_mm = record { mm_users = 1; mm_count = 1; bounds = λ i. 0; pgd = 0; mmap = 0; map_count = 0 }

-- The letters of a name, and the bytes behind its NUL.
abbrev pub named_by : List ℕ → (ℕ → ℕ) → ℕ → ℕ
named_by [] comm i = if i == 0 then 0 else comm i
named_by (c ∷ s) comm zero = c
named_by (c ∷ s) comm (suc i) = named_by s (λ j. comm (suc j)) i

-- The trap frame of the child: no registers are a new kernel thread's.
unfoldable pub child_regs : ℕ → Option (ℕ → ℕ) → ℕ → ℕ
child_regs usp none = λ i. 0
child_regs usp (some regs) =
    let child = update regs word_a0 0 in if usp == 0 then child else update child word_sp usp

module _ {A : Type 0} where
  abbrev pub set_task : Kernel A → ℕ → Task → Kernel A
  set_task k p t = record k { rq = record (k.rq) { tasks = update k.rq.tasks p t } }

  -- `false` where `kmalloc`, which gave `new`, gave NULL.
  unfoldable pub copy_mm : ℕ → ℕ → ℕ → Kernel A → Bool × Kernel A
  copy_mm new clone_flags p k =
      let oldmm = (k.procs (get_current k)).mm in
      if oldmm == 0
      then (true, edit k p (record (k.procs p) { mm = 0; active_mm = 0 }))
      else if has_flag clone_flags clone_vm
      then (
        true,
        record (edit k p (record (k.procs p) { mm = oldmm; active_mm = oldmm })) {
          mms =
              update k.mms oldmm
                (record (k.mms oldmm) { mm_users = ((k.mms oldmm).mm_users + 1) % u32 });
        },
      )
      else if new == 0
      then (false, k)
      else (
        true,
        record (edit k p (record (k.procs p) { mm = new; active_mm = new })) {
          mms =
              update k.mms new
                (record (new_mm) { bounds = λ i. if ltb i 11 then (k.mms oldmm).bounds i else 0 });
        },
      )

  unfoldable pub copy_files : ℕ → ℕ → Kernel A → Kernel A
  copy_files clone_flags p k =
      let curr = k.procs (get_current k) in
      if has_flag clone_flags clone_files
      then record (edit k p (record (k.procs p) { files = curr.files })) {
        files_count =
            if curr.files == 0
            then k.files_count
            else update k.files_count curr.files ((k.files_count curr.files + 1) % u32);
      }
      else edit k p (record (k.procs p) {
        ofile = λ i. if ltb i 16 then curr.ofile i else (k.procs p).ofile i;
      })

  unfoldable pub copy_fs : ℕ → ℕ → Kernel A → Kernel A
  copy_fs clone_flags p k =
      let curr = k.procs (get_current k) in
      if has_flag clone_flags clone_fs
      then record (edit k p (record (k.procs p) { fs = curr.fs; cwd = curr.cwd })) {
        fs_count =
            if curr.fs == 0
            then k.fs_count
            else update k.fs_count curr.fs ((k.fs_count curr.fs + 1) % u32);
      }
      else edit k p (record (k.procs p) { fs = 0; cwd = curr.cwd })

  unfoldable pub copy_sighand : ℕ → Kernel A → Kernel A
  copy_sighand p k =
      edit k p (record (k.procs p) { blocked = (k.procs (get_current k)).blocked; pending = 0 })

  -- `ret_from_fork` is the address of that routine.
  unfoldable pub copy_thread : ℕ → ℕ → Option (ℕ → ℕ) → ℕ → Kernel A → Kernel A
  unfolding child_regs
  copy_thread ret_from_fork usp regs p k = edit k p (record (k.procs p) {
    trapframe = child_regs usp regs;
    context_ra = ret_from_fork;
    context_sp = (k.procs p).stack + thread_size - 36 * 8;
  })

  -- Steps 3 and 4 before the PID: what comes from the parent, and the stack.
  unfoldable pub inherit : ℕ → ℕ → Kernel A → Kernel A
  inherit p ti k =
      let curr = k.procs (get_current k) in
      set_task
        (edit k p (record (k.procs p) {
          flags = curr.flags - bit_and curr.flags pf_idle;
          static_prio = curr.static_prio;
          normal_prio = curr.normal_prio;
          policy = curr.policy;
          uid = curr.uid;
          euid = curr.euid;
          gid = curr.gid;
          egid = curr.egid;
          stack = ti;
        }))
        p
        (record (k.rq.tasks p) {
          state = task_running;
          prio = (k.rq.tasks (get_current k)).prio;
          has_stack = true;
        })

  -- Behind the PID and up to step 5.
  unfoldable pub identify : ℕ → ℕ → ℕ → Kernel A → Kernel A
  identify clone_flags p pid k =
      let curr = k.procs (get_current k) in
      set_task
        (edit k p (record (k.procs p) {
          pid = pos pid;
          tgid = if has_flag clone_flags clone_thread then curr.tgid else pos pid;
          ppid = curr.pid;
        }))
        p (record (k.rq.tasks p) { on_rq = false; time_slice = def_timeslice; stime = 0 })

  -- The task at the end of the children of its parent.
  unfoldable pub add_child : ℕ → ℕ → Kernel A → Kernel A
  add_child q p k = edit k q (record (k.procs q) { children = (k.procs q).children ++ p ∷ [] })

  -- Steps 15 and 16.
  unfoldable pub enlist : ℕ → Kernel A → Kernel A
  enlist p k = record k {
    task_table =
        set_first max_procs 0 (λ o. elim o [ none ↦ true | some q ↦ false ]) (some p) k.task_table;
    all_tasks = k.all_tasks ++ p ∷ [];
  }

  -- Steps 11 to 14.
  unfoldable pub relate : ℕ → ℕ → Kernel A → Kernel A
  unfolding add_child
  relate clone_flags p k =
      let q = get_current k in
      let thread = has_flag clone_flags clone_thread in
      let k1 = edit k p (record (k.procs p) {
        children = [];
        parent = some q;
        real_parent = some q;
        group_leader = if thread then (k.procs q).group_leader else some p;
      }) in
      let k2 = if q == p then k1 else add_child q p k1 in
      edit k2 p (record (k2.procs p) {
        comm = λ i. if ltb i 16 then (k2.procs q).comm i else (k2.procs p).comm i;
        exit_code = pos 0;
        exit_signal = if thread then negsuc 0 else pos sigchld;
        killed = false;
        chan = none;
      })

  -- The task of a slot with its bytes cleared.
  unfoldable pub clear_task : ℕ → Kernel A → Kernel A
  clear_task p k = set_task (edit k p blank) p blank_task
