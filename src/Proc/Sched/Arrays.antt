-- ===== src/Proc/Sched/Arrays.antt =====
-- The run queue and its priority arrays in kernel/sched_new.c: the bitmap, adding a task and taking
-- it out.
use minix_rv.Prelude.{
  remove, ℕ, zero, suc, ◌+◌, ◌-◌, ◌*◌, ◌/◌, ◌%◌, ◌^◌, List, [], ◌∷◌, ◌++◌, Bool, true, false,
  Option, none, some, ℤ, pos, negsuc, leb, ltb, ◌==◌, if◌then◌else◌,
}
use minix_rv.Fs.Base.{update}
use minix_rv.Proc.Word.{test_bit, set_bit, clear_bit}

abbrev pub max_prio : ℕ
max_prio = 140

abbrev pub default_prio : ℕ
default_prio = 120

abbrev pub def_timeslice : ℕ
def_timeslice = 10

abbrev pub min_timeslice : ℕ
min_timeslice = 1

abbrev pub max_timeslice : ℕ
max_timeslice = 100

abbrev pub task_running : ℕ
task_running = 0

abbrev pub u32_mod : ℕ
u32_mod = 2 ^ 32

abbrev pub u64_mod : ℕ
u64_mod = 2 ^ 64

-- The fields of `task_struct` that the scheduler uses. `need_resched` is `TIF_NEED_RESCHED` of the
-- `thread_info` on the task's stack, which is there if `has_stack` is set.
pub record Task : Type 0 where
  pub state : ℕ
  pub on_rq : Bool
  pub prio : ℤ
  pub time_slice : ℕ
  pub stime : ℕ
  pub has_stack : Bool
  pub need_resched : Bool

pub record PrioArray : Type 0 where
  pub nr_active : ℕ
  pub bitmap : ℕ → ℕ
  pub queue : ℕ → List ℕ

-- `struct rq` and the tasks. `active` and `expired` point to the two arrays, never to the same one.
pub record Rq : Type 0 where
  pub nr_running : ℕ
  pub nr_switches : ℕ
  pub curr : Option ℕ
  pub idle : ℕ
  pub active : PrioArray
  pub expired : PrioArray
  pub clock : ℕ
  pub tasks : ℕ → Task

-- An array that `sched_init` clears: its counter, the words of its bitmap and its queues.
abbrev pub clear_array : PrioArray → PrioArray
clear_array a = record {
  nr_active = 0;
  bitmap = λ i. if ltb i 3 then 0 else a.bitmap i;
  queue = λ prio. if ltb prio max_prio then [] else a.queue prio;
}

-- `init_task` is the task of that name.
unfoldable pub sched_init : Rq → ℕ → Rq
sched_init s init_task = record s {
  nr_running = 0;
  nr_switches = 0;
  curr = some init_task;
  idle = init_task;
  active = clear_array s.active;
  expired = clear_array s.expired;
  clock = 0;
}

-- `for (bit = 0; bit < 64; bit++) if (word & (1UL << bit))`
unfoldable pub first_one : ℕ → ℕ → ℕ → Option ℕ
first_one zero word bit = none
first_one (suc n) word bit =
    let rest = first_one n word (suc bit) in if test_bit word bit then some bit else rest

-- The words of the bitmap from `i` on.
unfoldable pub find_first_bit_from : (ℕ → ℕ) → ℕ → ℕ → ℕ → ℕ
unfolding first_one
find_first_bit_from bitmap size zero i = size
find_first_bit_from bitmap size (suc n) i =
    elim (if bitmap i == 0 then none else first_one 64 (bitmap i) 0) [
      | none ↦ find_first_bit_from bitmap size n (suc i)
      | some bit ↦ if ltb (i * 64 + bit) size then i * 64 + bit else size
    ]

unfoldable pub find_first_bit : (ℕ → ℕ) → ℕ → ℕ
unfolding find_first_bit_from
find_first_bit bitmap size = find_first_bit_from bitmap size ((size + 63) / 64) 0

-- `__set_bit(nr, addr)`
abbrev pub bitmap_set : (ℕ → ℕ) → ℕ → ℕ → ℕ
bitmap_set addr nr = update addr (nr / 64) (set_bit (addr (nr / 64)) (nr % 64))

-- `__clear_bit(nr, addr)`
abbrev pub bitmap_clear : (ℕ → ℕ) → ℕ → ℕ → ℕ
bitmap_clear addr nr = update addr (nr / 64) (clear_bit (addr (nr / 64)) (nr % 64))

abbrev pub is_empty : List ℕ → Bool
is_empty [] = true
is_empty (p ∷ s) = false

-- The priority of a task, cut to the range of the queues.
unfoldable pub queue_of : ℤ → ℕ
queue_of (negsuc n) = 0
queue_of (pos n) = if leb max_prio n then max_prio - 1 else n

-- A task at the end of the queue `prio`.
abbrev pub add_task : PrioArray → ℕ → ℕ → PrioArray
add_task a prio p = record {
  nr_active = (a.nr_active + 1) % u32_mod;
  bitmap = bitmap_set a.bitmap prio;
  queue = update a.queue prio (a.queue prio ++ p ∷ []);
}

unfoldable pub enqueue_task : Rq → ℕ → Rq
unfolding queue_of
enqueue_task s p = record s {
  active = add_task s.active (queue_of (s.tasks p).prio) p;
  nr_running = (s.nr_running + 1) % u64_mod;
  tasks = update s.tasks p (record (s.tasks p) { on_rq = true });
}

-- `list_del` takes the task out of the list that it is in, whichever that is.
abbrev pub list_del : ℕ → PrioArray → PrioArray
list_del p a = record a { queue = λ prio. remove p (a.queue prio) }

-- The array that `dequeue_task` counts the task out of, which is always the active one.
abbrev pub count_out : PrioArray → ℕ → PrioArray
count_out a prio = record a {
  nr_active = a.nr_active - 1;
  bitmap = if is_empty (a.queue prio) then bitmap_clear a.bitmap prio else a.bitmap;
}

unfoldable pub dequeue_task : Rq → ℕ → Rq
unfolding queue_of remove
dequeue_task s p =
    if (s.tasks p).on_rq
    then record s {
      active = count_out (list_del p s.active) (queue_of (s.tasks p).prio);
      expired = list_del p s.expired;
      nr_running = s.nr_running - 1;
      tasks = update s.tasks p (record (s.tasks p) { on_rq = false });
    }
    else s
