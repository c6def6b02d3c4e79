-- ===== src/Proc/Sched/Dequeue.antt =====
-- `dequeue_task` of kernel/sched_new.c, for a task of the active and for one of the expired array.
use mathlib.Core.Path.{subst}
use native.Mathlib.Decide.{ℕ_discrete}
use minix_rv.Prelude.{
  occurs, remove, remove-none, length-remove, ℕ, zero, suc, ◌+◌, ◌-◌, ◌<◌, ◌≡◌, ◌≢◌, refl, sym, ap,
  ◌∙◌, inl, inr, Bool, true, not, ◌&&◌, arith, List, [], ◌∷◌, length, ◌==◌, Bool-cases,
}
use minix_rv.Proc.Sched.{
  Rq, PrioArray, max_prio, is_empty, list_del, count_out, queue_of, dequeue_task,
}
use minix_rv.Proc.Sched.First.{bit_of}
use minix_rv.Proc.Sched.Queues.{IsArray, IsRq, total, bit_of-bitmap_clear, queue_of-lt}

-- The task is in no queue of the array.
abbrev pub NotOn : PrioArray → ℕ → Type 0
NotOn a p = (q : ℕ) → q < max_prio → occurs p (a.queue q) ≡ 0

-- The task is in the queue `prio` of the array, and in no other.
abbrev pub IsOn : PrioArray → ℕ → ℕ → Type 0
IsOn a p prio =
    (0 < occurs p (a.queue prio)) × ((q : ℕ) → q < max_prio → q ≢ prio → occurs p (a.queue q) ≡ 0)

total-remove_none :
    (p : ℕ) (queue : ℕ → List ℕ) (n : ℕ)
    → ((q : ℕ) → q < n → occurs p (queue q) ≡ 0)
    → total (λ q. remove p (queue q)) n ≡ total queue n
total-remove_none p queue zero h = refl
total-remove_none p queue (suc n) h = omega (
  arith,
  ap length (remove-none p (queue n) (h n (omega arith))),
  total-remove_none p queue n (λ q lt. h q (omega arith)),
)

total-remove :
    (p : ℕ) (queue : ℕ → List ℕ) (n prio : ℕ)
    → prio < n
    → 0 < occurs p (queue prio)
    → ((q : ℕ) → q < n → q ≢ prio → occurs p (queue q) ≡ 0)
    → total (λ q. remove p (queue q)) n + 1 ≡ total queue n
total-remove p queue zero prio h k f = absurd (omega arith)
total-remove p queue (suc n) prio h k f = elim (ℕ_discrete prio n) [
  | yes here ↦ omega (
    arith,
    ap (λ i. length (remove p (queue i))) here,
    ap (λ i. length (queue i)) here,
    length-remove p (queue prio) k,
    total-remove_none p queue n (λ q lt. f q (omega arith) (λ e. omega (arith, e, here))),
  )
  | no other ↦ omega (
    arith,
    ap length (remove-none p (queue n) (f n (omega arith) (λ e. other (sym e)))),
    total-remove p queue n prio (omega arith) k (λ q lt ne. f q (omega arith) ne),
  )
]

list_del-NotOn : {a : PrioArray} → IsArray a → (p : ℕ) → NotOn a p → IsArray (list_del p a)
list_del-NotOn {a} v p h = record {
  bits =
      λ q lt. v.bits q lt ∙ ap (λ s. not (is_empty s)) (sym (remove-none p (a.queue q) (h q lt)));
  count = v.count ∙ sym (total-remove_none p a.queue max_prio h);
}

-- The bits of `count_out`, with the queue of the task apart from the others.
count_out-bits :
    (a : PrioArray) (prio q : ℕ) (b : Bool)
    → bit_of a.bitmap q ≡ b
    → (q ≡ prio → b ≡ true)
    → (q ≢ prio → b ≡ not (is_empty (a.queue q)))
    → bit_of (count_out a prio).bitmap q ≡ not (is_empty (a.queue q))
count_out-bits a prio q b e here other = elim (Bool-cases (is_empty (a.queue prio))) [
  | inl gone ↦ rw gone (
      bit_of-bitmap_clear a.bitmap prio q
      ∙ elim (ℕ_discrete q prio) [ yes same ↦ cleared same (gone' gone same) | no ne ↦ kept ne ])
  | inr left ↦ rw left (
      e ∙ elim (ℕ_discrete q prio) [
        | yes same ↦ here same ∙ ap not (sym left) ∙ ap (λ i. not (is_empty (a.queue i))) (sym same)
        | no ne ↦ other ne
      ])
]
  where
    gone' : is_empty (a.queue prio) ≡ true → q ≡ prio → is_empty (a.queue q) ≡ true
    gone' gone same = ap (λ i. is_empty (a.queue i)) same ∙ gone

    cleared :
        q ≡ prio
        → is_empty (a.queue q) ≡ true
        → (not (q == prio) && bit_of a.bitmap q) ≡ not (is_empty (a.queue q))
    cleared same gone = ground arith

    kept : q ≢ prio → (not (q == prio) && bit_of a.bitmap q) ≡ not (is_empty (a.queue q))
    kept ne = ground (arith, e ∙ other ne)

one_less : {n t r : ℕ} → n ≡ t → r + 1 ≡ t → n - 1 ≡ r
one_less e f = omega arith

occupied : (p : ℕ) (s : List ℕ) → 0 < occurs p s → not (is_empty s) ≡ true
occupied p [] h = absurd (omega arith)
occupied p (q ∷ s) h = refl

-- In the active array, in its own queue and in no other.
pub count_out-IsArray :
    {a : PrioArray}
    → IsArray a
    → (p prio : ℕ) → prio < max_prio
    → IsOn a p prio
    → IsArray (count_out (list_del p a) prio)
count_out-IsArray {a} v p prio h on = record {
  bits = λ q lt.
      count_out-bits (list_del p a) prio q (bit_of a.bitmap q) refl
        (λ same.
          v.bits q lt
          ∙ occupied p (a.queue q) (subst (λ i. 0 < occurs p (a.queue i)) (sym same) on.0))
        (λ ne.
          v.bits q lt
          ∙ ap (λ s. not (is_empty s)) (sym (remove-none p (a.queue q) (on.1 q lt ne))));
  count = one_less v.count (total-remove p a.queue max_prio prio h on.0 on.1);
}

-- With the bitmaps and counters of both arrays right, `dequeue_task` of a task that is in its
-- queue of the active array and nowhere else keeps them right.
pub dequeue_task-IsRq :
    {s : Rq}
    → IsRq s
    → (p : ℕ) → IsOn s.active p (queue_of (s.tasks p).prio)
    → NotOn s.expired p
    → IsRq (dequeue_task s p)
unfolding dequeue_task
dequeue_task-IsRq {s} v p on off = elim (Bool-cases (s.tasks p).on_rq) [
  | inl queued ↦ rw queued (record {
    active =
        count_out-IsArray v.active p (queue_of (s.tasks p).prio) (queue_of-lt (s.tasks p).prio) on;
    expired = list_del-NotOn v.expired p off;
  })
  | inr free ↦ rw free v
]

-- With the bitmaps and counters of both arrays right and some task counted as active,
-- `dequeue_task` of a task that is marked as queued, and is in its queue of the expired array and
-- not on the active one, leaves neither array right.
pub dequeue_task-expired :
    {s : Rq}
    → IsRq s
    → (p : ℕ) → (s.tasks p).on_rq ≡ true
    → IsOn s.expired p (queue_of (s.tasks p).prio)
    → NotOn s.active p
    → 0 < s.active.nr_active
    → (¬ IsArray (dequeue_task s p).active) × (¬ IsArray (dequeue_task s p).expired)
unfolding dequeue_task
dequeue_task-expired {s} v p queued on off busy = rw queued (
  λ w.
      omega (arith, busy, w.count, v.active.count, total-remove_none p s.active.queue max_prio off),
  λ w. omega (
    arith,
    w.count,
    v.expired.count,
    total-remove p s.expired.queue max_prio (queue_of (s.tasks p).prio)
        (queue_of-lt (s.tasks p).prio) on.0 on.1,
  ),
)
