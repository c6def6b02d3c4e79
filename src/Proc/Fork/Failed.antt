-- ===== src/Proc/Fork/Failed.antt =====
-- A fork that fails, in kernel/fork.c, gives back what it took.
use minix_rv.Prelude.{
  pos, ℕ, ◌<◌, ◌≡◌, ◌≢◌, refl, sym, ap, ◌∙◌, ◌⊎◌, inl, inr, Option, some, none, Bool, true, false,
  ◌||◌, ◌==◌, Bool-cases, arith,
}
use mathlib.Core.Path.{subst}
use native.Mathlib.Decide.{ℕ_discrete}
use minix_rv.Proc.Word.{test_bit}
use minix_rv.Proc.Pid.{Pids, alloc_pid, free_pid}
use minix_rv.Proc.Pid.Valid.{used, IsValid, free_pid-used}
use minix_rv.Proc.Pid.Alloc.{Taken, AllocResult, alloc_pid-AllocResult}
use minix_rv.Proc.Cache.{TaskCache, SlotResult, alloc_task_struct, alloc_task_struct-SlotResult}
use minix_rv.Proc.Process.{Kernel, Stacks, free_thread_info, free_task}
use minix_rv.Proc.Exit.Release.{free_task_struct-slots}
use minix_rv.Proc.Copy.{copy_mm, inherit, identify, clear_task}
use minix_rv.Proc.Fork.{copy_process, with_task, with_stack, with_pid, populate, undo}

-- The stack was not asked for, not given, or given back.
abbrev pub IsBack : {A : Type 0} → Stacks A → A → A → Type 0
IsBack m a b =
    (b ≡ a)
    ⊎ (((m.alloc_stack a).0 ≡ 0) × (b ≡ (m.alloc_stack a).1))
    ⊎ (b ≡ m.free_stack (m.alloc_stack a).1 (m.alloc_stack a).0)

-- A kernel as it was: PIDs, the slots of tasks, the tables, and the tasks whose slots are in use.
pub record Restored {A : Type 0} (m : Stacks A) (k k' : Kernel A) : Type 0 where
  pub pids : (x : ℕ) → used k'.pids x ≡ used k.pids x
  pub slots :
      (i : ℕ)
      → i < 64
      → test_bit k'.cache.task_cache_bitmap i ≡ test_bit k.cache.task_cache_bitmap i
  pub table : k'.task_table ≡ k.task_table
  pub list : k'.all_tasks ≡ k.all_tasks
  pub others :
      (q : ℕ) → (q < 64 → test_bit k.cache.task_cache_bitmap q ≡ true) → k'.procs q ≡ k.procs q
  pub queues : k'.rq ≡ record (k.rq) { tasks = k'.rq.tasks }
  pub tasks :
      (q : ℕ)
      → (q < 64 → test_bit k.cache.task_cache_bitmap q ≡ true)
      → k'.rq.tasks q ≡ k.rq.tasks q
  pub pool : IsBack m k.pool k'.pool

-- With the slot `p` taken, and nothing else but a stack.
record Halfway {A : Type 0} (p : ℕ) (k t : Kernel A) : Type 0 where
  below : p < 64
  unused : test_bit k.cache.task_cache_bitmap p ≡ false
  slots :
      (i : ℕ)
      → test_bit t.cache.task_cache_bitmap i ≡ (i == p || test_bit k.cache.task_cache_bitmap i)
  table : t.task_table ≡ k.task_table
  list : t.all_tasks ≡ k.all_tasks
  pids : (x : ℕ) → used t.pids x ≡ used k.pids x
  others : (q : ℕ) → q ≢ p → t.procs q ≡ k.procs q
  queues : t.rq ≡ record (k.rq) { tasks = t.rq.tasks }
  tasks : (q : ℕ) → q ≢ p → t.rq.tasks q ≡ k.rq.tasks q

module _ {A : Type 0} (m : Stacks A) (p : ℕ) (k : Kernel A) where
  apart :
      {t : Kernel A}
      → Halfway p k t
      → (q : ℕ) → (q < 64 → test_bit k.cache.task_cache_bitmap q ≡ true)
      → q ≢ p
  apart h q used_ e =
      let clash : true ≡ false =
        sym (used_ (omega (arith, h.below)))
        ∙ ap (test_bit k.cache.task_cache_bitmap) e
        ∙ h.unused in
      cc

  free_task-Restored :
      (t : Kernel A) → Halfway p k t → IsBack m k.pool t.pool → Restored m k (free_task m p t)
  unfolding free_task
  free_task-Restored t h back = record {
    pids = h.pids;
    slots =
        λ i l. ground (arith, h.unused, h.slots i, free_task_struct-slots t.cache p i h.below l);
    table = h.table;
    list = h.list;
    others = λ q used_. h.others q (apart h q used_);
    queues = h.queues;
    tasks = λ q used_. h.tasks q (apart h q used_);
    pool = back;
  }

  Halfway-free_thread_info :
      (ti : ℕ) (t : Kernel A) → Halfway p k t → Halfway p k (free_thread_info m ti t)
  unfolding free_thread_info
  Halfway-free_thread_info ti t h = elim (Bool-cases (ti == 0)) [
    | inl e ↦ rw e h
    | inr e ↦ rw e (record {
      below = h.below;
      unused = h.unused;
      slots = h.slots;
      table = h.table;
      list = h.list;
      pids = h.pids;
      others = h.others;
      queues = h.queues;
      tasks = h.tasks;
    })
  ]

  freed-pool :
      (ti : ℕ) (t : Kernel A) → ti ≢ 0 → (free_thread_info m ti t).pool ≡ m.free_stack t.pool ti
  unfolding free_thread_info
  freed-pool ti t h = let e : (ti == 0) ≡ false = ground arith in rw e

  undo-Restored :
      (task_size ret ti : ℕ) (t : Kernel A)
      → Halfway p k t
      → ti ≢ 0
      → ti ≡ (m.alloc_stack k.pool).0
      → t.pool ≡ (m.alloc_stack k.pool).1
      → Restored m k (undo m task_size ret p ti t)
  unfolding undo
  undo-Restored task_size ret ti t h some_ given pool =
      free_task-Restored (free_thread_info m ti t) (Halfway-free_thread_info ti t h)
        (inr (inr (freed-pool ti t some_ ∙ rw (pool, given))))

-- What a failed step leaves; a step that does not fail is not spoken of.
abbrev OnFailure : {A : Type 0} → Stacks A → Kernel A → Option ℕ × Kernel A → Type 0
OnFailure m k (none, k') = Restored m k k'
OnFailure m k (some p, k') = Unit {0}

copy_mm_cases :
    {A : Type 0} (new flags p : ℕ) (k : Kernel A)
    → (copy_mm new flags p k ≡ (false, k)) ⊎ ((copy_mm new flags p k).0 ≡ true)
unfolding copy_mm
copy_mm_cases new flags p k = ground arith

module _ {A : Type 0} (m : Stacks A) (task_size ret p : ℕ) (k : Kernel A) (valid : IsValid k.pids)
    (new flags usp : ℕ) (regs : Option (ℕ → ℕ)) where
  -- The kernel with the slot and the stack.
  abbrev started : TaskCache → A → Kernel A
  started cache pool = clear_task p (record k { cache = cache; pool = pool })

  -- The slot that was given.
  abbrev Given : TaskCache → Type 0
  Given cache =
      (p < 64)
      × (test_bit k.cache.task_cache_bitmap p ≡ false)
      × ((j : ℕ)
          → test_bit cache.task_cache_bitmap j ≡ (j == p || test_bit k.cache.task_cache_bitmap j))

  Halfway-started : (cache : TaskCache) (pool : A) → Given cache → Halfway p k (started cache pool)
  unfolding clear_task
  Halfway-started cache pool g = record {
    below = g.0;
    unused = g.1;
    slots = g.2;
    table = refl;
    list = refl;
    pids = λ x. refl;
    others = λ q h. ground arith;
    queues = refl;
    tasks = λ q h. ground arith;
  }

  populate-true :
      (ti pid : ℕ) (r : Bool × Kernel A)
      → r.0 ≡ true
      → OnFailure m k (populate m task_size ret flags usp regs p ti pid r)
  unfolding populate
  populate-true ti pid (true, t) e = tt
  populate-true ti pid (false, t) e = cc

  populate-OnFailure :
      (t : Kernel A) (ti pid : ℕ)
      → Halfway p k (record t { pids = free_pid t.pids (pos pid) })
      → ti ≢ 0
      → ti ≡ (m.alloc_stack k.pool).0
      → t.pool ≡ (m.alloc_stack k.pool).1
      → OnFailure m k (populate m task_size ret flags usp regs p ti pid (copy_mm new flags p t))
  unfolding populate
  populate-OnFailure t ti pid h some_ given pool_ = elim (copy_mm_cases new flags p t) [
    | inl e ↦ rw e (undo-Restored m p k task_size ret ti _ h some_ given pool_)
    | inr e ↦ populate-true ti pid (copy_mm new flags p t) e
  ]

  -- With the PID, and when it is given back.
  identified :
      (cache : TaskCache) (pool : A) (ti pid : ℕ) (pids : Pids)
      → Given cache
      → Taken k.pids pid pids
      → Halfway p k
          (record (identify flags p pid
            (record (inherit p ti (started cache pool)) { pids = pids })) {
              pids = free_pid pids (pos pid);
            })
  unfolding identify inherit clear_task
  identified cache pool ti pid pids g taken = record {
    below = g.0;
    unused = g.1;
    slots = g.2;
    table = refl;
    list = refl;
    pids = λ x.
        ground
          (arith, free_pid-used pids pid x, taken.taken x, taken.free, taken.positive, taken.below);
    others = λ q h. ground arith;
    queues = refl;
    tasks = λ q h. ground arith;
  }

  with_pid-OnFailure :
      (cache : TaskCache) (pool : A) (ti : ℕ)
      → Given cache
      → ti ≢ 0
      → ti ≡ (m.alloc_stack k.pool).0
      → pool ≡ (m.alloc_stack k.pool).1
      → (r : Option ℕ × Pids) → AllocResult k.pids r
      → OnFailure m k
          (with_pid m task_size ret new flags usp regs p ti r (inherit p ti (started cache pool)))
  unfolding with_pid inherit clear_task
  with_pid-OnFailure cache pool ti g some_ given pool_ (none, pids) (e, full) =
      undo-Restored m p k task_size ret ti _
        (record {
          below = g.0;
          unused = g.1;
          slots = g.2;
          table = refl;
          list = refl;
          pids = λ x. rw e;
          others = λ q h. ground arith;
          queues = refl;
          tasks = λ q h. ground arith;
        })
        some_ given pool_
  with_pid-OnFailure cache pool ti g some_ given pool_ (some pid, pids) taken =
      populate-OnFailure
        (identify flags p pid (record (inherit p ti (started cache pool)) { pids = pids })) ti pid
        (identified cache pool ti pid pids g taken) some_ given pool_

  with_stack-OnFailure :
      (cache : TaskCache)
      → Given cache
      → OnFailure m k (
          with_stack m task_size ret new flags usp regs p
            (m.alloc_stack k.pool).0
            (started cache (m.alloc_stack k.pool).1))
  unfolding with_stack clear_task
  with_stack-OnFailure cache g = elim (ℕ_discrete (m.alloc_stack k.pool).0 0) [
    | yes e ↦ rw e (
        free_task-Restored m p k (started cache (m.alloc_stack k.pool).1)
          (Halfway-started cache (m.alloc_stack k.pool).1 g) (inr (inl (e, refl))))
    | no e ↦
        let z : ((m.alloc_stack k.pool).0 == 0) ≡ false = ground arith in
        rw z (
          with_pid-OnFailure cache (m.alloc_stack k.pool).1 (m.alloc_stack k.pool).0 g e refl refl
            (alloc_pid k.pids) (alloc_pid-AllocResult k.pids valid))
  ]

module _ {A : Type 0} (m : Stacks A) (task_size ret : ℕ) (k : Kernel A) (valid : IsValid k.pids)
    (new flags usp : ℕ) (regs : Option (ℕ → ℕ)) where
  with_task-OnFailure :
      (r : Option ℕ × TaskCache)
      → SlotResult task_size k.cache r
      → OnFailure m k (with_task m task_size ret new flags usp regs r k)
  unfolding with_task
  with_task-OnFailure (none, cache) (e, full) = record {
    pids = λ x. refl;
    slots = λ i l. ap (λ c. test_bit c.task_cache_bitmap i) e;
    table = refl;
    list = refl;
    others = λ q u. refl;
    queues = refl;
    tasks = λ q u. refl;
    pool = inl refl;
  }
  with_task-OnFailure (some p, cache) g =
      with_stack-OnFailure m task_size ret p k valid new flags usp regs cache (g.0, g.1, g.4)

  -- With a valid bitmap of PIDs: where `copy_process` fails, the PIDs in use, the slots of the cache in
  -- use, the table and the list of tasks, the run queue's arrays and counters, and all tasks whose
  -- slots were in use, with what the scheduler keeps of them, are as before, and the pages for the
  -- stack were not given or are given back.
  pub copy_process-Restored :
      (k' : Kernel A)
      → copy_process m task_size ret new flags usp regs k ≡ (none, k')
      → Restored m k k'
  unfolding copy_process
  copy_process-Restored k' e = subst (OnFailure m k) e (
      with_task-OnFailure (alloc_task_struct task_size k.cache)
        (alloc_task_struct-SlotResult task_size k.cache))
