-- ===== src/Proc/Sched/Queues.antt =====
-- The invariant of a `prio_array` of kernel/sched_new.c, and adding a task to it.
use minix_rv.Prelude.{
  [], ltb, some, if◌then◌else◌, ℕ, zero, suc, ◌+◌, ◌/◌, ◌%◌, ◌≤◌, ◌<◌, ◌≡◌, ◌≢◌, refl, sym, ap, ◌∙◌,
  Bool, false, not, ◌&&◌, ◌||◌, ℤ, pos, negsuc, arith, List, [], ◌∷◌, ◌++◌, length, length-append,
  ◌==◌,
}
use native.Mathlib.Decide.{ℕ_discrete}
use minix_rv.Fs.Base.{update}
use minix_rv.Proc.Word.{test_bit-zero, test_bit, test_bit-set_bit, test_bit-clear_bit}
use minix_rv.Proc.Sched.{
  clear_array, sched_init, Rq, PrioArray, max_prio, u32_mod, bitmap_set, bitmap_clear, is_empty,
  queue_of, add_task, enqueue_task,
}
use minix_rv.Proc.Sched.First.{bit_of}

-- How many tasks the first `n` queues hold.
abbrev pub total : (ℕ → List ℕ) → ℕ → ℕ
total queue zero = 0
total queue (suc n) = length (queue n) + total queue n

-- A bit of the bitmap is set where the queue has a task, and the counter is right.
pub record IsArray (a : PrioArray) : Type 0 where
  pub bits : (q : ℕ) → q < max_prio → bit_of a.bitmap q ≡ not (is_empty (a.queue q))
  pub count : a.nr_active ≡ total a.queue max_prio

pub record IsRq (s : Rq) : Type 0 where
  pub active : IsArray s.active
  pub expired : IsArray s.expired

pub bit_of-bitmap_set :
    (m : ℕ → ℕ) (nr q : ℕ) → bit_of (bitmap_set m nr) q ≡ (q == nr || bit_of m q)
unfolding bit_of
bit_of-bitmap_set m nr q = elim (ℕ_discrete (nr / 64) (q / 64)) [
  | yes here ↦ ground (arith, here, test_bit-set_bit (m (nr / 64)) (nr % 64) (q % 64))
  | no other ↦ ground arith
]

pub bit_of-bitmap_clear :
    (m : ℕ → ℕ) (nr q : ℕ) → bit_of (bitmap_clear m nr) q ≡ (not (q == nr) && bit_of m q)
unfolding bit_of
bit_of-bitmap_clear m nr q = elim (ℕ_discrete (nr / 64) (q / 64)) [
  | yes here ↦
      ground (
        arith,
        here,
        test_bit-clear_bit (m (nr / 64)) (nr % 64) (q % 64) (omega arith) (omega arith),
      )
  | no other ↦ ground arith
]

pub queue_of-lt : (prio : ℤ) → queue_of prio < max_prio
unfolding queue_of
queue_of-lt (negsuc n) = omega arith
queue_of-lt (pos n) = ground arith

total-outside :
    (queue : ℕ → List ℕ) (n prio : ℕ) (new : List ℕ)
    → n ≤ prio
    → total (update queue prio new) n ≡ total queue n
total-outside queue zero prio new h = refl
total-outside queue (suc n) prio new h =
    ground (arith, total-outside queue n prio new (omega arith))

update-here : {A : Type 0} (f : ℕ → A) (i : ℕ) (a : A) → update f i a i ≡ a
update-here f i a = ground arith

update-other : {A : Type 0} (f : ℕ → A) (i j : ℕ) (a : A) → i ≢ j → update f i a j ≡ f j
update-other f i j a h = ground arith

pub is_empty-add : (s : List ℕ) (p : ℕ) → is_empty (s ++ p ∷ []) ≡ false
is_empty-add [] p = refl
is_empty-add (q ∷ s) p = refl

-- A queue that changes its length by one changes the total by one.
pub total-update :
    (queue : ℕ → List ℕ) (n prio : ℕ) (new : List ℕ)
    → prio < n
    → total (update queue prio new) n + length (queue prio) ≡ total queue n + length new
total-update queue zero prio new h = absurd (omega arith)
total-update queue (suc n) prio new h = elim (ℕ_discrete prio n) [
  | yes here ↦ omega (
    arith,
    total-outside queue n prio new (omega (arith, here)),
    ap length (ap (update queue prio new) (sym here) ∙ update-here queue prio new),
    ap (λ k. length (queue k)) here,
  )
  | no other ↦ omega (
    arith,
    total-update queue n prio new (omega arith),
    ap length (update-other queue prio n new other),
  )
]

added_bits :
    (queue : ℕ → List ℕ) (prio p q : ℕ) (b : Bool)
    → b ≡ not (is_empty (queue q))
    → (q == prio || b) ≡ not (is_empty (update queue prio (queue prio ++ p ∷ []) q))
added_bits queue prio p q b e = elim (ℕ_discrete prio q) [
  | yes here ↦ ground (arith, here, is_empty-add (queue prio) p)
  | no other ↦ ground (arith, e)
]

pub add_task-IsArray :
    {a : PrioArray}
    → IsArray a
    → (prio p : ℕ) → prio < max_prio
    → a.nr_active + 1 < u32_mod
    → IsArray (add_task a prio p)
add_task-IsArray {a} v prio p h k = record {
  bits = λ q lt.
      bit_of-bitmap_set a.bitmap prio q
      ∙ added_bits a.queue prio p q (bit_of a.bitmap q) (v.bits q lt);
  count = omega (
    arith,
    v.count,
    total-update a.queue max_prio prio (a.queue prio ++ p ∷ []) h,
    length-append (a.queue prio) (p ∷ []),
  );
}

-- With the bitmaps and counters of both arrays right, `enqueue_task` keeps them right while the
-- counter of the active array does not overflow.
pub enqueue_task-IsRq :
    {s : Rq} → IsRq s → (p : ℕ) → s.active.nr_active + 1 < u32_mod → IsRq (enqueue_task s p)
unfolding enqueue_task
enqueue_task-IsRq {s} v p h = record {
  active = add_task-IsArray v.active (queue_of (s.tasks p).prio) p (queue_of-lt (s.tasks p).prio) h;
  expired = v.expired;
}

pub total-zero : (queue : ℕ → List ℕ) (n : ℕ) → total queue n ≡ 0 → (q : ℕ) → q < n → queue q ≡ []
total-zero queue zero e q h = absurd (omega arith)
total-zero queue (suc n) e q h = elim (ℕ_discrete q n) [
  | yes here ↦ ap queue here ∙ no_length (queue n) (omega (arith, e))
  | no below ↦ total-zero queue n (omega (arith, e)) q (omega arith)
]
  where
    no_length : (s : List ℕ) → length s ≡ 0 → s ≡ []
    no_length [] z = refl
    no_length (p ∷ s) z = absurd (omega (arith, z))

pub total-empty :
    (queue : ℕ → List ℕ) (n : ℕ) → ((q : ℕ) → q < n → queue q ≡ []) → total queue n ≡ 0
total-empty queue zero h = refl
total-empty queue (suc n) h =
    omega (arith, ap length (h n (omega arith)), total-empty queue n (λ q lt. h q (omega arith)))

clear_array-IsArray : (a : PrioArray) → IsArray (clear_array a)
unfolding bit_of
clear_array-IsArray a = record {
  bits = λ q lt. no_bit q lt;
  count = sym (total-empty (clear_array a).queue max_prio (λ q lt. no_queue (a.queue q) q lt));
}
  where
    no_queue : (s : List ℕ) (q : ℕ) → q < max_prio → (if ltb q max_prio then [] else s) ≡ []
    no_queue s q lt = ground arith

    no_bit :
        (q : ℕ)
        → q < max_prio
        → test_bit (if ltb (q / 64) 3 then 0 else a.bitmap (q / 64)) (q % 64)
          ≡ not (is_empty (if ltb q max_prio then [] else a.queue q))
    no_bit q lt = ground (arith, test_bit-zero (q % 64), no_queue (a.queue q) q lt)

-- After `sched_init` no task is queued, the bitmaps and counters of both arrays are right, and the
-- task that runs is the idle task.
pub sched_init-IsRq :
    (s : Rq) (init_task : ℕ)
    → IsRq (sched_init s init_task)
      × ((sched_init s init_task).active.nr_active ≡ 0)
      × ((sched_init s init_task).expired.nr_active ≡ 0)
      × ((sched_init s init_task).curr ≡ some (sched_init s init_task).idle)
unfolding sched_init
sched_init-IsRq s init_task = (
  record { active = clear_array-IsArray s.active; expired = clear_array-IsArray s.expired },
  refl,
  refl,
  refl,
)
