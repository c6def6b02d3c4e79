-- ===== src/Proc/Fork.antt =====
-- Processes made by kernel/fork.c: `fork`, its parts and kernel threads.
pub mod Failed
pub mod Child
pub mod Tests
use Prim.Native.Nat.{bit_and, bit_or}
use minix_rv.Prelude.{
  ℕ, zero, suc, ◌+◌, ◌-◌, ◌*◌, ◌/◌, ◌%◌, ◌^◌, Bool, true, false, ◌&&◌, ◌||◌, not, Option, none,
  some, ℤ, pos, negsuc, List, [], ◌∷◌, ◌++◌, ltb, ◌==◌, if◌then◌else◌,
}
use minix_rv.Fs.Base.{update}
use minix_rv.Proc.Pid.{Pids, alloc_pid, free_pid, clear_pids}
use minix_rv.Proc.Cache.{TaskCache, alloc_task_struct}
use minix_rv.Proc.Sched.{Task, Rq, task_running, default_prio, def_timeslice, wake_up_new_task}
use minix_rv.Proc.Process.{
  Kernel, Process, MmStruct, Stacks, edit, u32, init_task, max_procs, get_current, set_first,
  free_thread_info, free_task,
}
use minix_rv.Proc.Copy.{
  clone_vm, clone_fs, clone_files, clone_vfork, clone_thread, pf_kthread, pf_idle, sigchld,
  thread_size, has_flag, word_sp, word_a0, blank, blank_task, new_mm, named_by, child_regs,
  set_task, copy_mm, copy_files, copy_fs, copy_sighand, copy_thread, inherit, identify, add_child,
  enlist, relate, clear_task,
}

module _ {A : Type 0} where
  module _ (m : Stacks A) (task_size ret_from_fork : ℕ) where
    -- What was taken is given back.
    unfoldable pub undo : ℕ → ℕ → Kernel A → Kernel A
    unfolding free_thread_info free_task
    undo p ti k = free_task m p (free_thread_info m ti k)

    -- The steps behind `copy_mm`.
    unfoldable pub populate :
        ℕ → ℕ → Option (ℕ → ℕ) → ℕ → ℕ → ℕ → Bool × Kernel A → Option ℕ × Kernel A
    unfolding copy_files copy_fs copy_sighand copy_thread relate enlist undo
    populate clone_flags usp regs p ti pid (false, k) =
        (none, undo p ti (record k { pids = free_pid k.pids (pos pid) }))
    populate clone_flags usp regs p ti pid (true, k) = (
      some p,
      enlist p (
          relate clone_flags p (
            copy_thread ret_from_fork usp regs p
              (copy_sighand p (copy_fs clone_flags p (copy_files clone_flags p k))))),
    )

    -- From the PID on.
    unfoldable pub with_pid :
        ℕ → ℕ → ℕ → Option (ℕ → ℕ) → ℕ → ℕ → Option ℕ × Pids → Kernel A → Option ℕ × Kernel A
    unfolding identify copy_mm populate
    with_pid new clone_flags usp regs p ti (none, pids) k = (
      none,
      undo p ti (edit (record k { pids = pids }) p (record (k.procs p) { pid = negsuc 0 })),
    )
    with_pid new clone_flags usp regs p ti (some pid, pids) k =
        populate clone_flags usp regs p ti pid
          (copy_mm new clone_flags p (identify clone_flags p pid (record k { pids = pids })))

    -- From the stack on: `ti` is its address, 0 for none.
    unfoldable pub with_stack : ℕ → ℕ → ℕ → Option (ℕ → ℕ) → ℕ → ℕ → Kernel A → Option ℕ × Kernel A
    unfolding inherit with_pid
    with_stack new clone_flags usp regs p ti k =
        if ti == 0
        then (none, free_task m p k)
        else with_pid new clone_flags usp regs p ti (alloc_pid k.pids) (inherit p ti k)

    -- A stack for the task `p` of the cache.
    unfoldable pub with_task :
        ℕ → ℕ → ℕ → Option (ℕ → ℕ) → Option ℕ × TaskCache → Kernel A → Option ℕ × Kernel A
    unfolding with_stack clear_task
    with_task new clone_flags usp regs (none, cache) k = (none, record k { cache = cache })
    with_task new clone_flags usp regs (some p, cache) k =
        let (ti, pool) = m.alloc_stack k.pool in
        with_stack new clone_flags usp regs p ti
          (clear_task p (record k { cache = cache; pool = pool }))

    -- `none` for an error, which is always -1. `new` is what `kmalloc` gives, if it is asked.
    unfoldable pub copy_process : ℕ → ℕ → ℕ → Option (ℕ → ℕ) → Kernel A → Option ℕ × Kernel A
    unfolding with_task
    copy_process new clone_flags usp regs k =
        with_task new clone_flags usp regs (alloc_task_struct task_size k.cache) k

    unfoldable pub start_task : Option ℕ × Kernel A → ℤ × Kernel A
    start_task (none, k) = (negsuc 0, k)
    start_task (some p, k) = ((k.procs p).pid, record k { rq = wake_up_new_task k.rq p })

    unfoldable pub do_fork : ℕ → ℕ → ℕ → Option (ℕ → ℕ) → Kernel A → ℤ × Kernel A
    unfolding start_task copy_process
    do_fork new clone_flags usp regs k = start_task (copy_process new clone_flags usp regs k)

    -- `current_pt_regs()`
    abbrev pub current_regs : Kernel A → Option (ℕ → ℕ)
    current_regs k = some (k.procs (get_current k)).trapframe

    unfoldable pub sys_fork : ℕ → Kernel A → ℤ × Kernel A
    unfolding do_fork
    sys_fork new k = do_fork new sigchld 0 (current_regs k) k

    unfoldable pub sys_vfork : ℕ → Kernel A → ℤ × Kernel A
    unfolding do_fork
    sys_vfork new k =
        do_fork new (bit_or (bit_or clone_vfork clone_vm) sigchld) 0 (current_regs k) k

    unfoldable pub sys_clone : ℕ → ℕ → ℕ → Kernel A → ℤ × Kernel A
    unfolding do_fork
    sys_clone new clone_flags newsp k = do_fork new clone_flags newsp (current_regs k) k

    -- Steps 3 to 12 of `kernel_thread`, for a helper at the address `ret_from_fork`. What they write
    -- to a task without a PID is left out: its slot is cleared when it is taken again.
    unfoldable pub set_thread : ℕ → ℕ → ℕ → ℕ → ℕ → Kernel A → Kernel A
    unfolding add_child
    set_thread fn arg p ti pid k =
        let k1 =
          set_task
            (edit k p (record (k.procs p) {
              flags = pf_kthread;
              static_prio = pos default_prio;
              normal_prio = pos default_prio;
              policy = 0;
              uid = 0;
              euid = 0;
              gid = 0;
              egid = 0;
              stack = ti;
              pid = pos pid;
              tgid = pos pid;
              ppid = pos 0;
              mm = 0;
              active_mm = 0;
              kthread_fn = fn;
              kthread_arg = arg;
              context_ra = ret_from_fork;
              context_sp = ti + thread_size - 16;
              children = [];
              parent = some init_task;
              real_parent = some init_task;
              group_leader = some p;
              comm =
                  named_by (b'k' ∷ b't' ∷ b'h' ∷ b'r' ∷ b'e' ∷ b'a' ∷ b'd' ∷ []) (k.procs p).comm;
              exit_code = pos 0;
              exit_signal = pos 0;
              killed = false;
              chan = none;
            }))
            p
            (record (k.rq.tasks p) {
              state = task_running;
              on_rq = false;
              prio = pos default_prio;
              time_slice = def_timeslice;
              stime = 0;
              has_stack = true;
            }) in
        add_child init_task p k1

    unfoldable pub thread_with_pid :
        ℕ → ℕ → ℕ → ℕ → Option ℕ × Pids → Kernel A → Option ℕ × Kernel A
    unfolding set_thread enlist undo
    thread_with_pid fn arg p ti (none, pids) k = (none, undo p ti (record k { pids = pids }))
    thread_with_pid fn arg p ti (some pid, pids) k =
        (some p, enlist p (set_thread fn arg p ti pid (record k { pids = pids })))

    unfoldable pub thread_with_task : ℕ → ℕ → Option ℕ × TaskCache → Kernel A → Option ℕ × Kernel A
    unfolding thread_with_pid clear_task
    thread_with_task fn arg (none, cache) k = (none, record k { cache = cache })
    thread_with_task fn arg (some p, cache) k =
        let (ti, pool) = m.alloc_stack k.pool in
        let k1 = clear_task p (record k { cache = cache; pool = pool }) in
        if ti == 0
        then (none, free_task m p k1)
        else thread_with_pid fn arg p ti (alloc_pid k1.pids) k1

    unfoldable pub kernel_thread : ℕ → ℕ → Kernel A → ℤ × Kernel A
    unfolding thread_with_task start_task
    kernel_thread fn arg k =
        start_task (thread_with_task fn arg (alloc_task_struct task_size k.cache) k)

module _ {A : Type 0} where
  unfoldable pub fork_init : Kernel A → Kernel A
  fork_init k =
      record (edit k init_task (record (k.procs init_task) {
        group_leader = some init_task;
        parent = some init_task;
        real_parent = some init_task;
        children = [];
      })) {
        task_table = λ i.
            if i == 0 then some init_task else (if ltb i max_procs then none else k.task_table i);
        pids = clear_pids k.pids;
        cache = record (k.cache) { task_cache_bitmap = 0 };
      }
