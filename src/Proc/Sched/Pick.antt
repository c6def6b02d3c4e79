-- ===== src/Proc/Sched/Pick.antt =====
-- What `pick_next_task` of kernel/sched_new.c chooses.
use native.Mathlib.Decide.{ℕ_discrete}
use minix_rv.Prelude.{
  ℕ, ◌<◌, ◌≡◌, refl, sym, ap, ◌∙◌, ◌⊎◌, inl, inr, true, false, not, arith, ltb, List, [], ◌∷◌,
  Bool-cases,
}
use minix_rv.Proc.Sched.{
  Rq, PrioArray, max_prio, is_empty, find_first_bit, first_task, pick_active, swap_arrays,
  pick_next_task,
}
use minix_rv.Proc.Sched.First.{IsFirst, find_first_bit-IsFirst}
use minix_rv.Proc.Sched.Queues.{IsArray, IsRq, total-zero, total-empty}

-- `next` is at the head of the first queue of `a` that is not empty.
abbrev pub IsHead : PrioArray → ℕ → Type 0
IsHead a next =
    (q : ℕ) × (rest : List ℕ) × (q < max_prio)
    × (a.queue q ≡ next ∷ rest)
    × ((j : ℕ) → j < q → a.queue j ≡ [])

abbrev pub NoTask : PrioArray → Type 0
NoTask a = (q : ℕ) → q < max_prio → a.queue q ≡ []

empty : (s : List ℕ) → false ≡ not (is_empty s) → s ≡ []
empty [] e = refl
empty (p ∷ s) e = ground arith

head_of :
    (s : List ℕ) (idle : ℕ)
    → true ≡ not (is_empty s)
    → (rest : List ℕ) × (s ≡ first_task s idle ∷ rest)
head_of [] idle e = ground arith
head_of (p ∷ s) idle e = (s, refl)

pick_active-found :
    (a : PrioArray) (idle : ℕ)
    → 0 < a.nr_active
    → find_first_bit a.bitmap max_prio < max_prio
    → pick_active a idle ≡ first_task (a.queue (find_first_bit a.bitmap max_prio)) idle
unfolding pick_active
pick_active-found a idle h k = ground arith

pick_active-none : (a : PrioArray) (idle : ℕ) → a.nr_active ≡ 0 → pick_active a idle ≡ idle
unfolding pick_active
pick_active-none a idle e = ground arith

pick_active-IsHead :
    {a : PrioArray} (idle : ℕ) → IsArray a → 0 < a.nr_active → IsHead a (pick_active a idle)
pick_active-IsHead {a} idle v h = elim (Bool-cases (ltb r max_prio)) [
  | inl inside ↦
      let (rest, head) =
        head_of (a.queue r) idle (sym (first.set (ground arith)) ∙ v.bits r (ground arith)) in
      (
        r,
        rest,
        ground arith,
        head ∙ ap (λ p. p ∷ rest) (sym (pick_active-found a idle h (ground arith))),
        λ j lt. empty (a.queue j) (sym (first.clear j (omega arith) lt) ∙ v.bits j (ground arith)),
      )
  | inr outside ↦ absurd (
      omega (
        arith,
        h,
        v.count,
        total-empty a.queue max_prio (λ j lt.
            empty (a.queue j) (sym (first.clear j (omega arith) (ground arith)) ∙ v.bits j lt)),
      ))
]
  where
    r : ℕ
    r = find_first_bit a.bitmap max_prio

    first : IsFirst a.bitmap 0 max_prio r
    first = find_first_bit-IsFirst a.bitmap max_prio

no_task : {a : PrioArray} → IsArray a → a.nr_active ≡ 0 → NoTask a
no_task {a} v e = total-zero a.queue max_prio (sym v.count ∙ e)

-- The active array and the expired one have changed places, and nothing else.
abbrev pub swapped : Rq → Rq
swapped s = record s { active = s.expired; expired = s.active }

swap_arrays-kept : (s : Rq) → 0 < s.active.nr_active → swap_arrays s ≡ s
unfolding swap_arrays
swap_arrays-kept s h = ground arith

swap_arrays-swapped : (s : Rq) → s.active.nr_active ≡ 0 → swap_arrays s ≡ swapped s
unfolding swap_arrays
swap_arrays-swapped s e = ground arith

-- With the bitmaps and counters of both arrays right, `pick_next_task` chooses the task at the
-- head of the queue with the smallest number that is not empty, in the active array, or in the
-- expired one if no task is queued in the active one; otherwise no task is queued in either array,
-- and it chooses the idle task. The state is as it was, or no task was active and the two arrays
-- have changed places and nothing else; the latter also where the idle task is chosen.
pub pick_next_task-IsHead :
    (s : Rq)
    → IsRq s
    → let (next, s') = pick_next_task s in
      (IsHead s'.active next × ((s' ≡ s) ⊎ (NoTask s.active × (s' ≡ swapped s))))
      ⊎ ((next ≡ s.idle) × NoTask s.active × NoTask s.expired × (s' ≡ swapped s))
unfolding pick_next_task
pick_next_task-IsHead s v = elim (ℕ_discrete s.active.nr_active 0) [
  | no busy ↦
      rw (swap_arrays-kept s (omega arith))
        (inl (pick_active-IsHead s.idle v.active (omega arith), inl refl))
  | yes idle_active ↦
      rw (swap_arrays-swapped s idle_active) (elim (ℕ_discrete s.expired.nr_active 0) [
        | no busy ↦ inl (
          pick_active-IsHead s.idle v.expired (omega arith),
          inr (no_task v.active idle_active, refl),
        )
        | yes idle_both ↦ inr (
          pick_active-none s.expired s.idle idle_both,
          no_task v.active idle_active,
          no_task v.expired idle_both,
          refl,
        )
      ])
]
