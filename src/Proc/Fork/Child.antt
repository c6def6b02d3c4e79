-- ===== src/Proc/Fork/Child.antt =====
-- A fork that succeeds, in kernel/fork.c: the child and its parent.
use mathlib.Core.Path.{subst}
use minix_rv.Prelude.{
  pos, ℕ, ◌<◌, ◌≡◌, ◌≢◌, refl, sym, ap, ◌∙◌, inl, inr, Option, some, none, Bool, true, false, ◌||◌,
  ◌==◌, Bool-cases, [], ◌∷◌, ◌++◌, arith,
}
use minix_rv.Proc.Word.{test_bit}
use minix_rv.Proc.Pid.{Pids, pid_max, alloc_pid}
use minix_rv.Proc.Pid.Valid.{used, IsValid}
use minix_rv.Proc.Pid.Alloc.{Taken, AllocResult, alloc_pid-AllocResult}
use minix_rv.Proc.Cache.{TaskCache, SlotResult, alloc_task_struct, alloc_task_struct-SlotResult}
use minix_rv.Proc.Sched.{task_running}
use minix_rv.Proc.Process.{Kernel, Process, Stacks, get_current}
use minix_rv.Proc.Copy.{
  child_regs, copy_mm, copy_files, copy_fs, copy_sighand, copy_thread, relate, enlist, inherit,
  identify, clear_task, add_child,
}
use minix_rv.Proc.Fork.{copy_process, with_task, with_stack, with_pid, populate}

-- The task `p` with the PID `n` is a child of the task that runs.
pub record Forked {A : Type 0} (usp : ℕ) (regs : Option (ℕ → ℕ)) (k : Kernel A) (p n : ℕ)
    (k' : Kernel A) : Type 0 where
  pub below : p < 64
  pub unused : test_bit k.cache.task_cache_bitmap p ≡ false
  pub fresh : used k.pids n ≡ false
  pub pids : (x : ℕ) → used k'.pids x ≡ (x == n || used k.pids x)
  pub pid : (k'.procs p).pid ≡ pos n
  pub ppid : (k'.procs p).ppid ≡ (k.procs (get_current k)).pid
  pub parent : (k'.procs p).parent ≡ some (get_current k)
  pub childless : (k'.procs p).children ≡ []
  pub family :
      k'.procs (get_current k)
      ≡ record (k.procs (get_current k)) { children = (k.procs (get_current k)).children ++ p ∷ [] }
  pub others : (q : ℕ) → q ≢ p → q ≢ get_current k → k'.procs q ≡ k.procs q
  pub queues : k'.rq ≡ record (k.rq) { tasks = k'.rq.tasks }
  pub tasks : (q : ℕ) → q ≢ p → k'.rq.tasks q ≡ k.rq.tasks q
  pub registers : (k'.procs p).trapframe ≡ child_regs usp regs
  pub listed : k'.all_tasks ≡ k.all_tasks ++ p ∷ []
  pub runs : (k'.rq.tasks p).state ≡ task_running

-- The fields that are copied, for the slot `p` and the PID `n`.
record Copied {A : Type 0} (p n : ℕ) (k t : Kernel A) : Type 0 where
  ptr : t.current_task_ptr ≡ k.current_task_ptr
  others : (q : ℕ) → q ≢ p → t.procs q ≡ k.procs q
  queues : t.rq ≡ record (k.rq) { tasks = t.rq.tasks }
  tasks : (q : ℕ) → q ≢ p → t.rq.tasks q ≡ k.rq.tasks q
  pid : (t.procs p).pid ≡ pos n
  ppid : (t.procs p).ppid ≡ (k.procs (get_current k)).pid
  pids : (x : ℕ) → used t.pids x ≡ (x == n || used k.pids x)
  list : t.all_tasks ≡ k.all_tasks
  state : (t.rq.tasks p).state ≡ task_running

module _ {A : Type 0} (p n : ℕ) (k : Kernel A) where
  copy_mm-Copied :
      (new flags : ℕ) (t : Kernel A) → Copied p n k t → Copied p n k (copy_mm new flags p t).1
  unfolding copy_mm
  copy_mm-Copied new flags t c = record {
    ptr = ground (arith, c.ptr);
    others = λ q h. ground (arith, c.others q h);
    queues = ground (arith, c.queues);
    tasks = λ q h. ground (arith, c.tasks q h);
    pid = ground (arith, c.pid);
    ppid = ground (arith, c.ppid);
    pids = λ x. ground (arith, c.pids x);
    list = ground (arith, c.list);
    state = ground (arith, c.state);
  }

  copy_files-Copied :
      (flags : ℕ) (t : Kernel A) → Copied p n k t → Copied p n k (copy_files flags p t)
  unfolding copy_files
  copy_files-Copied flags t c = record {
    ptr = ground (arith, c.ptr);
    others = λ q h. ground (arith, c.others q h);
    queues = ground (arith, c.queues);
    tasks = λ q h. ground (arith, c.tasks q h);
    pid = ground (arith, c.pid);
    ppid = ground (arith, c.ppid);
    pids = λ x. ground (arith, c.pids x);
    list = ground (arith, c.list);
    state = ground (arith, c.state);
  }

  copy_fs-Copied : (flags : ℕ) (t : Kernel A) → Copied p n k t → Copied p n k (copy_fs flags p t)
  unfolding copy_fs
  copy_fs-Copied flags t c = record {
    ptr = ground (arith, c.ptr);
    others = λ q h. ground (arith, c.others q h);
    queues = ground (arith, c.queues);
    tasks = λ q h. ground (arith, c.tasks q h);
    pid = ground (arith, c.pid);
    ppid = ground (arith, c.ppid);
    pids = λ x. ground (arith, c.pids x);
    list = ground (arith, c.list);
    state = ground (arith, c.state);
  }

  copy_sighand-Copied : (t : Kernel A) → Copied p n k t → Copied p n k (copy_sighand p t)
  unfolding copy_sighand
  copy_sighand-Copied t c = record {
    ptr = c.ptr;
    others = λ q h. ground (arith, c.others q h);
    queues = ground (arith, c.queues);
    tasks = λ q h. ground (arith, c.tasks q h);
    pid = ground (arith, c.pid);
    ppid = ground (arith, c.ppid);
    pids = c.pids;
    list = c.list;
    state = c.state;
  }

  copy_thread-Copied :
      (ret usp : ℕ) (regs : Option (ℕ → ℕ)) (t : Kernel A)
      → Copied p n k t
      → Copied p n k (copy_thread ret usp regs p t)
  unfolding copy_thread
  copy_thread-Copied ret usp regs t c = record {
    ptr = c.ptr;
    others = λ q h. ground (arith, c.others q h);
    queues = ground (arith, c.queues);
    tasks = λ q h. ground (arith, c.tasks q h);
    pid = ground (arith, c.pid);
    ppid = ground (arith, c.ppid);
    pids = c.pids;
    list = c.list;
    state = c.state;
  }

  copy_thread-registers :
      (ret usp : ℕ) (regs : Option (ℕ → ℕ)) (t : Kernel A)
      → ((copy_thread ret usp regs p t).procs p).trapframe ≡ child_regs usp regs
  unfolding copy_thread
  copy_thread-registers ret usp regs t = ground arith

  get_current-Copied : (t : Kernel A) → Copied p n k t → get_current t ≡ get_current k
  unfolding get_current
  get_current-Copied t c = rw c.ptr refl

  relate-rq : (flags : ℕ) (t : Kernel A) → (enlist p (relate flags p t)).rq ≡ t.rq
  unfolding enlist relate add_child
  relate-rq flags t = ground arith

  -- The last steps.
  Forked-relate :
      (flags usp : ℕ) (regs : Option (ℕ → ℕ)) (t : Kernel A)
      → p < 64
      → test_bit k.cache.task_cache_bitmap p ≡ false
      → used k.pids n ≡ false
      → get_current k ≢ p
      → (t.procs p).trapframe ≡ child_regs usp regs
      → Copied p n k t
      → Forked usp regs k p n (enlist p (relate flags p t))
  unfolding enlist relate add_child
  Forked-relate flags usp regs t below unused fresh away r c =
      let curr = get_current-Copied t c in
      let rq = relate-rq flags t in
      record {
        below = below;
        unused = unused;
        fresh = fresh;
        pids = λ x. ground (arith, c.pids x);
        queues = rw rq c.queues;
        tasks = λ q h. rw rq (c.tasks q h);
        pid = ground (arith, c.pid, curr);
        ppid = ground (arith, c.ppid, curr);
        parent = ground (arith, curr);
        childless = ground (arith, curr);
        family = ground (arith, curr, c.others (get_current k) away);
        others = λ q h i. ground (arith, curr, c.others q h);
        registers = ground (arith, r, curr);
        listed = ground (arith, c.list);
        runs = ground (arith, c.state);
      }

-- What a step that succeeds leaves.
abbrev OnSuccess : {A : Type 0} → ℕ → Option (ℕ → ℕ) → Kernel A → Option ℕ × Kernel A → Type 0
OnSuccess usp regs k (none, k') = Unit {0}
OnSuccess usp regs k (some p, k') = (n : ℕ) × (0 < n) × (n < pid_max) × Forked usp regs k p n k'

identify-ppid :
    {A : Type 0} (flags p n : ℕ) (t : Kernel A)
    → ((identify flags p n t).procs p).ppid ≡ (t.procs (get_current t)).pid
unfolding identify
identify-ppid flags p n t = ground arith

module _ {A : Type 0} (m : Stacks A) (task_size ret : ℕ) (k : Kernel A) (valid : IsValid k.pids)
    (running : get_current k < 64 → test_bit k.cache.task_cache_bitmap (get_current k) ≡ true)
    (new flags usp : ℕ) (regs : Option (ℕ → ℕ)) where
  module _ (p : ℕ) (below : p < 64) (unused : test_bit k.cache.task_cache_bitmap p ≡ false) where
    away : get_current k ≢ p
    away e =
        let clash : true ≡ false =
          sym (running (omega (arith, below)))
          ∙ ap (test_bit k.cache.task_cache_bitmap) e
          ∙ unused in
        cc

    populate-OnSuccess :
        (ti n : ℕ) (pids : Pids) (r : Bool × Kernel A)
        → Taken k.pids n pids
        → Copied p n k r.1
        → OnSuccess usp regs k (populate m task_size ret flags usp regs p ti n r)
    unfolding populate
    populate-OnSuccess ti n pids (false, t) taken c = tt
    populate-OnSuccess ti n pids (true, t) taken c =
        let t1 : Kernel A = copy_sighand p (copy_fs flags p (copy_files flags p t)) in
        (
          n,
          taken.positive,
          taken.below,
          Forked-relate p n k flags usp regs (copy_thread ret usp regs p t1) below unused taken.free
              away (copy_thread-registers p n k ret usp regs t1)
              (copy_thread-Copied p n k ret usp regs t1 (
                copy_sighand-Copied p n k (copy_fs flags p (copy_files flags p t)) (
                  copy_fs-Copied p n k flags (copy_files flags p t)
                    (copy_files-Copied p n k flags t c)))),
        )

    -- The kernel before the PID.
    abbrev begun : TaskCache → A → ℕ → Kernel A
    begun cache pool ti = inherit p ti (clear_task p (record k { cache = cache; pool = pool }))

    begun-others :
        (cache : TaskCache) (pool : A) (ti q : ℕ)
        → q ≢ p
        → (begun cache pool ti).procs q ≡ k.procs q
    unfolding inherit clear_task
    begun-others cache pool ti q h = ground arith

    begun-current :
        (cache : TaskCache) (pool : A) (ti : ℕ) (pids : Pids)
        → get_current (record (begun cache pool ti) { pids = pids }) ≡ get_current k
    unfolding get_current inherit clear_task
    begun-current cache pool ti pids = refl

    identified :
        (cache : TaskCache) (pool : A) (ti n : ℕ) (pids : Pids)
        → Taken k.pids n pids
        → Copied p n k (
            identify flags p n
              (record (inherit p ti (clear_task p (record k { cache = cache; pool = pool }))) {
                pids = pids;
              }))
    unfolding identify inherit clear_task
    identified cache pool ti n pids taken = record {
      ptr = refl;
      others = λ q h. ground arith;
      queues = refl;
      tasks = λ q h. ground arith;
      pid = ground arith;
      ppid =
          identify-ppid flags p n (record (begun cache pool ti) { pids = pids })
          ∙ ap (λ (c : ℕ). ((begun cache pool ti).procs c).pid) (begun-current cache pool ti pids)
          ∙ ap (λ (x : Process). x.pid) (begun-others cache pool ti (get_current k) away);
      pids = taken.taken;
      list = refl;
      state = ground arith;
    }

    with_pid-OnSuccess :
        (cache : TaskCache) (pool : A) (ti : ℕ) (r : Option ℕ × Pids)
        → AllocResult k.pids r
        → OnSuccess usp regs k (
            with_pid m task_size ret new flags usp regs p ti r
              (inherit p ti (clear_task p (record k { cache = cache; pool = pool }))))
    unfolding with_pid
    with_pid-OnSuccess cache pool ti (none, pids) e = tt
    with_pid-OnSuccess cache pool ti (some n, pids) taken =
        populate-OnSuccess ti n pids _ taken
          (copy_mm-Copied p n k new flags _ (identified cache pool ti n pids taken))

    with_stack-OnSuccess :
        (cache : TaskCache) (pool : A) (ti : ℕ)
        → OnSuccess usp regs k (
            with_stack m task_size ret new flags usp regs p ti
              (clear_task p (record k { cache = cache; pool = pool })))
    unfolding with_stack clear_task
    with_stack-OnSuccess cache pool ti = elim (Bool-cases (ti == 0)) [
      | inl e ↦ rw e tt
      | inr e ↦
          rw e (
            with_pid-OnSuccess cache pool ti (alloc_pid k.pids)
              (alloc_pid-AllocResult k.pids valid))
    ]

  with_task-OnSuccess :
      (r : Option ℕ × TaskCache)
      → SlotResult task_size k.cache r
      → OnSuccess usp regs k (with_task m task_size ret new flags usp regs r k)
  unfolding with_task
  with_task-OnSuccess (none, cache) e = tt
  with_task-OnSuccess (some p, cache) g =
      with_stack-OnSuccess p g.0 g.1 cache (m.alloc_stack k.pool).1 (m.alloc_stack k.pool).0

  -- With a valid bitmap of PIDs and the slot of the task that runs in use: where `copy_process` makes
  -- a task, its slot and its PID, between 1 and `PID_MAX` - 1, were free, the PID and no other has
  -- come into use, the task has no children, is the last child of the task that runs and has its
  -- PID as that of the parent, can run, is last in the list of tasks, and has the registers that
  -- were given, but 0 in `a0` and a stack pointer if one was given, or else all 0; the task that runs
  -- changes in its list of children only, every other task in nothing, what the scheduler keeps of
  -- these tasks is as before, and so are the run queue's arrays and counters.
  pub copy_process-Forked :
      (p : ℕ) (k' : Kernel A)
      → copy_process m task_size ret new flags usp regs k ≡ (some p, k')
      → (n : ℕ) × (0 < n) × (n < pid_max) × Forked usp regs k p n k'
  unfolding copy_process
  copy_process-Forked p k' e = subst (OnSuccess usp regs k) e (
      with_task-OnSuccess (alloc_task_struct task_size k.cache)
        (alloc_task_struct-SlotResult task_size k.cache))
