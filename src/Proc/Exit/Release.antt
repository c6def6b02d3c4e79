-- ===== src/Proc/Exit/Release.antt =====
-- What `release_task` of kernel/exit.c gives back.
use minix_rv.Prelude.{
  pos, ℕ, zero, suc, ◌+◌, ◌<◌, ◌≡◌, ◌≢◌, inl, inr, refl, sym, ap, ◌∙◌, Option, some, none, Bool,
  true, false, not, ◌&&◌, ◌==◌, if◌then◌else◌, Bool-cases, occurs, remove, occurs-remove_ne, arith,
}
use native.Mathlib.Decide.{ℕ_discrete}
use minix_rv.Proc.Word.{test_bit, test_bit-clear_bit}
use minix_rv.Proc.Pid.{free_pid, is_pid}
use minix_rv.Proc.Pid.Valid.{used, free_pid-used}
use minix_rv.Proc.Cache.{TaskCache, free_task_struct}
use minix_rv.Proc.Process.{
  Kernel, Process, Stacks, is_task, set_first, unlink_child, free_thread_info, free_task,
  release_task,
}
use minix_rv.Proc.Exit.Reparent.{IsFamily, occurs-remove_self}

-- What is left of the task `p` with the PID `n` after it is released.
pub record Released {A : Type 0} (p n : ℕ) (k k' : Kernel A) : Type 0 where
  pub family : IsFamily k'.procs
  pub children :
      (q r : ℕ)
      → occurs r (k'.procs q).children ≡ (if r == p then 0 else occurs r (k.procs q).children)
  pub pids : (x : ℕ) → used k'.pids x ≡ (not (x == n) && used k.pids x)
  pub slots :
      (i : ℕ)
      → i < 64
      → test_bit k'.cache.task_cache_bitmap i
        ≡ (not (i == p) && test_bit k.cache.task_cache_bitmap i)
  pub table : (i : ℕ) → i < 64 → k'.task_table i ≢ some p

is_task-eq : (o : Option ℕ) (p : ℕ) → is_task o p ≡ true → o ≡ some p
is_task-eq none p h = cc
is_task-eq (some q) p h = ground arith

is_task-ne : (o : Option ℕ) (p : ℕ) → is_task o p ≡ false → o ≢ some p
is_task-ne none p h e = cc
is_task-ne (some q) p h e = ground arith

set_first-below :
    (n i j : ℕ) (test : Option ℕ → Bool) (x : Option ℕ) (table : ℕ → Option ℕ)
    → j < i
    → set_first n i test x table j ≡ table j
unfolding set_first
set_first-below zero i j test x table h = refl
set_first-below (suc n) i j test x table h = elim (Bool-cases (test (table i))) [
  | inl here ↦ rw here (ground arith)
  | inr away ↦ rw away (set_first-below n (suc i) j test x table (omega arith))
]

-- The one slot with the task is emptied.
set_first-none :
    (n i j p : ℕ) (table : ℕ → Option ℕ)
    → ((a b : ℕ) → table a ≡ some p → table b ≡ some p → a ≡ b)
    → j < i + n
    → i < j + 1
    → set_first n i (λ o. is_task o p) none table j ≢ some p
unfolding set_first
set_first-none zero i j p table once low high = absurd (omega arith)
set_first-none (suc n) i j p table once low high = elim (Bool-cases (is_task (table i) p)) [
  | inl here ↦
      let at : table i ≡ some p = is_task-eq (table i) p here in
      rw here (elim (ℕ_discrete i j) [
        | yes e ↦ λ z. ground (arith, e, z)
        | no e ↦ λ z. e (once i j at (ground (arith, z)))
      ])
  | inr away ↦ rw away (elim (ℕ_discrete i j) [
    | yes e ↦ λ z. is_task-ne (table i) p away (
        ap table e
        ∙ sym (set_first-below n (suc i) j (λ o. is_task o p) none table (omega arith))
        ∙ z)
    | no e ↦ set_first-none n (suc i) j p table once (omega arith) (omega arith)
  ])
]

module _ {A : Type 0} (m : Stacks A) where
  free_thread_info-procs : (ti : ℕ) (k : Kernel A) → (free_thread_info m ti k).procs ≡ k.procs
  unfolding free_thread_info
  free_thread_info-procs ti k = ground arith

  free_thread_info-pids : (ti : ℕ) (k : Kernel A) → (free_thread_info m ti k).pids ≡ k.pids
  unfolding free_thread_info
  free_thread_info-pids ti k = ground arith

  free_thread_info-cache : (ti : ℕ) (k : Kernel A) → (free_thread_info m ti k).cache ≡ k.cache
  unfolding free_thread_info
  free_thread_info-cache ti k = ground arith

  free_thread_info-table :
      (ti : ℕ) (k : Kernel A) → (free_thread_info m ti k).task_table ≡ k.task_table
  unfolding free_thread_info
  free_thread_info-table ti k = ground arith

  module _ (p : ℕ) (k : Kernel A) where
    abbrev unlisted : Kernel A
    unlisted = record k {
      procs = unlink_child p k.procs;
      all_tasks = remove p k.all_tasks;
      task_table = set_first 64 0 (λ o. is_task o p) none k.task_table;
      pids = free_pid k.pids (k.procs p).pid;
    }

    release_task-procs : (release_task m p k).procs ≡ unlink_child p k.procs
    unfolding release_task free_task
    release_task-procs = free_thread_info-procs (k.procs p).stack unlisted

    release_task-pids : (release_task m p k).pids ≡ free_pid k.pids (k.procs p).pid
    unfolding release_task free_task
    release_task-pids = free_thread_info-pids (k.procs p).stack unlisted

    release_task-cache : (release_task m p k).cache ≡ free_task_struct k.cache (pos p)
    unfolding release_task free_task
    release_task-cache =
        ap (λ c. free_task_struct c (pos p)) (free_thread_info-cache (k.procs p).stack unlisted)

    release_task-table :
        (release_task m p k).task_table ≡ set_first 64 0 (λ o. is_task o p) none k.task_table
    unfolding release_task free_task
    release_task-table = free_thread_info-table (k.procs p).stack unlisted

pub free_task_struct-slots :
    (s : TaskCache) (p i : ℕ)
    → p < 64
    → i < 64
    → test_bit (free_task_struct s (pos p)).task_cache_bitmap i
      ≡ (not (i == p) && test_bit s.task_cache_bitmap i)
unfolding free_task_struct
free_task_struct-slots s p i h l = ground (arith, test_bit-clear_bit s.task_cache_bitmap p i h l)

module _ (procs : ℕ → Process) (family : IsFamily procs) (p : ℕ) where
  unlink_child-occurs :
      (q r : ℕ)
      → occurs r (unlink_child p procs q).children
        ≡ (if r == p then 0 else occurs r (procs q).children)
  unlink_child-occurs q r = elim (ℕ_discrete r p) [
    | yes e ↦ ground (arith, occurs-remove_self p (procs q).children (family.once q p))
    | no e ↦ ground (arith, occurs-remove_ne p r (procs q).children (λ z. e (sym z)))
  ]

  unlink_child-IsFamily : IsFamily (unlink_child p procs)
  unlink_child-IsFamily = record {
    named = λ q r h. family.named q r (ground (arith, unlink_child-occurs q r));
    once = λ q r. ground (arith, unlink_child-occurs q r, family.once q r);
  }

-- With the processes a family, the task `p` of the cache with a PID between 1 and `PID_MAX` - 1, and in
-- one slot of the table at most: after `release_task` it is in no list of children, its PID and
-- its slot of the cache are free and no slot of the table has it; all other PIDs, slots of the
-- cache and children are as before, and the processes are a family.
pub release_task-Released :
    {A : Type 0} (m : Stacks A) (p n : ℕ) (k : Kernel A)
    → IsFamily k.procs
    → (k.procs p).pid ≡ pos n
    → is_pid n ≡ true
    → p < 64
    → ((a b : ℕ) → k.task_table a ≡ some p → k.task_table b ≡ some p → a ≡ b)
    → Released p n k (release_task m p k)
release_task-Released m p n k family has valid slot once = record {
  family = rw (release_task-procs m p k) (unlink_child-IsFamily k.procs family p);
  children = λ q r. rw (release_task-procs m p k) (unlink_child-occurs k.procs family p q r);
  pids = λ x. rw (release_task-pids m p k, has) (ground (arith, valid, free_pid-used k.pids n x));
  slots = λ i l. rw (release_task-cache m p k) (free_task_struct-slots k.cache p i slot l);
  table = λ i l.
      rw (release_task-table m p k)
        (set_first-none 64 0 i p k.task_table once (omega arith) (omega arith));
}
