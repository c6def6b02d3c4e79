-- ===== src/Proc/Pid/Alloc.antt =====
-- What `alloc_pid` of kernel/fork.c gives, and when it fails.
use mathlib.Core.Path.{subst}
use native.Mathlib.Decide.{ℕ_discrete}
use minix_rv.Prelude.{
  ℕ, zero, suc, ◌+◌, ◌-◌, ◌*◌, ◌/◌, ◌%◌, ◌≤◌, ◌<◌, ◌≡◌, refl, sym, ap, ◌∙◌, inl, inr, true, false,
  not, ◌&&◌, ◌||◌, Option, none, some, pos, arith, ◌==◌, Bool-cases, Option-cases,
}
use minix_rv.Proc.Word.{test_bit}
use minix_rv.Proc.Pid.{
  Pids, pid_max, pid_bitmap_size, is_pid, take_pid, free_bit, alloc_from, alloc_pid, free_pid,
  first_pid,
}
use minix_rv.Proc.Pid.Valid.{
  used, IsValid, take_pid-used, free_pid-used, free_pid-IsValid, free_bit-some, free_bit-none,
  take_pid-IsValid,
}

-- From `s` to `s'`, the PID `r` and no other has been taken.
pub record Taken (s : Pids) (r : ℕ) (s' : Pids) : Type 0 where
  pub positive : 0 < r
  pub below : r < pid_max
  pub free : used s r ≡ false
  pub taken : (q : ℕ) → used s' q ≡ (q == r || used s q)
  pub valid : IsValid s'
  pub last : s'.last_pid ≡ r

module _ {s : Pids} (v : IsValid s) where
  word_used : (idx bit : ℕ) → bit < 64 → used s (idx * 64 + bit) ≡ test_bit (s.pid_bitmap idx) bit
  unfolding used
  word_used idx bit h =
      ap (λ i. test_bit (s.pid_bitmap i) ((idx * 64 + bit) % 64)) (omega arith)
      ∙ ap (test_bit (s.pid_bitmap idx)) (omega arith)

  -- PID 0 is in use, so a zero bit is that of a PID.
  found-is_pid :
      (idx bit : ℕ)
      → idx < pid_bitmap_size
      → bit < 64
      → test_bit (s.pid_bitmap idx) bit ≡ false
      → (0 < idx * 64 + bit) × (idx * 64 + bit < pid_max)
  found-is_pid idx bit h k e = elim (Bool-cases (0 == idx * 64 + bit)) [
    | inl zero_pid ↦ absurd (clash (ground arith))
    | inr other ↦ (ground arith, omega arith)
  ]
    where
      clash : idx * 64 + bit ≡ 0 → ⊥
      clash z = ground (arith, sym v.idle ∙ ap (used s) (sym z) ∙ word_used idx bit k ∙ e)

  -- What the `n` rounds from `i` on give: a PID, or that all the words of these rounds are full.
  abbrev Rounds : ℕ → ℕ → ℕ → Option ℕ × Pids → Type 0
  Rounds n pid i (some r, s') = Taken s r s'
  Rounds n pid i (none, s') =
      (s' ≡ s)
      × ((j : ℕ)
          → i ≤ j
          → j < i + n
          → (b : ℕ) → b < 64
          → test_bit (s.pid_bitmap ((pid / 64 + j) % pid_bitmap_size)) b ≡ true)

  one_more :
      (n pid i : ℕ)
      → ((b : ℕ) → b < 64 → test_bit (s.pid_bitmap ((pid / 64 + i) % pid_bitmap_size)) b ≡ true)
      → (q : Option ℕ × Pids) → Rounds n pid (suc i) q
      → Rounds (suc n) pid i q
  one_more n pid i full (some r, s') h = h
  one_more n pid i full (none, s') (same, h) = (same, go)
    where
      go :
          (j : ℕ)
          → i ≤ j
          → j < i + suc n
          → (b : ℕ) → b < 64
          → test_bit (s.pid_bitmap ((pid / 64 + j) % pid_bitmap_size)) b ≡ true
      go j p k b lt = elim (ℕ_discrete j i) [
        | yes here ↦
            subst (λ t. test_bit (s.pid_bitmap ((pid / 64 + t) % pid_bitmap_size)) b ≡ true)
              (sym here) (full b lt)
        | no later ↦ h j (omega arith) (omega arith) b lt
      ]

  take_pid-Taken :
      (idx bit : ℕ)
      → idx < pid_bitmap_size
      → bit < 64
      → test_bit (s.pid_bitmap idx) bit ≡ false
      → Taken s (idx * 64 + bit) (take_pid s idx bit)
  take_pid-Taken idx bit h k e = record {
    positive = (found-is_pid idx bit h k e).0;
    below = (found-is_pid idx bit h k e).1;
    free = word_used idx bit k ∙ e;
    taken = λ q. take_pid-used s idx bit q k;
    valid = take_pid-IsValid v idx bit k;
    last = refl;
  }

  alloc_from-Rounds : (n pid i : ℕ) → Rounds n pid i (alloc_from n s pid i)
  unfolding alloc_from
  alloc_from-Rounds zero pid i = (refl, λ j h k. absurd (omega arith))
  alloc_from-Rounds (suc n) pid i =
      elim (Option-cases (free_bit (s.pid_bitmap ((pid / 64 + i) % pid_bitmap_size)))) [
        | inl full ↦
            rw (full, alloc_from)
              (one_more n pid i
                (free_bit-none (s.pid_bitmap ((pid / 64 + i) % pid_bitmap_size)) full)
                (alloc_from n s pid (suc i)) (alloc_from-Rounds n pid (suc i)))
        | inr (bit, found) ↦
            let (low, zero_bit) =
              free_bit-some (s.pid_bitmap ((pid / 64 + i) % pid_bitmap_size)) {b = bit} found in
            let here =
              take_pid-Taken ((pid / 64 + i) % pid_bitmap_size) bit (omega arith) low zero_bit in
            rw (found, alloc_from)
              (rw (in_range ((pid / 64 + i) % pid_bitmap_size * 64 + bit) here.positive here.below)
                here)
      ]
    where
      in_range : (r : ℕ) → 0 < r → r < pid_max → is_pid r ≡ true
      in_range r h k = ground arith

-- The round that looks at the word `t`.
round_of :
    (a t : ℕ)
    → t < pid_bitmap_size
    → (a + (t + pid_bitmap_size - a % pid_bitmap_size) % pid_bitmap_size) % pid_bitmap_size ≡ t
round_of a t h = omega arith

-- What `alloc_pid` answers: a PID that was free, with which it is now in use and nothing else has
-- changed; or none, where all of them are in use and nothing has changed.
abbrev pub AllocResult : Pids → Option ℕ × Pids → Type 0
AllocResult s (some r, s') = Taken s r s'
AllocResult s (none, s') = (s' ≡ s) × ((q : ℕ) → q < pid_max → used s q ≡ true)

-- `alloc_pid`, on a bitmap of 64-bit words with PID 0 in use, takes a PID between 1 and `PID_MAX`
-- - 1 that was free, remembers it and marks it and no other; or it returns -1 and changes
-- nothing, and then every PID is in use.
pub alloc_pid-AllocResult : (s : Pids) → IsValid s → AllocResult s (alloc_pid s)
unfolding alloc_pid used
alloc_pid-AllocResult s v =
    all_words (alloc_from pid_bitmap_size s (first_pid s) 0)
      (alloc_from-Rounds v pid_bitmap_size (first_pid s) 0)
  where
    in_use :
        ((j : ℕ)
          → 0 ≤ j
          → j < 0 + pid_bitmap_size
          → (b : ℕ) → b < 64
          → test_bit (s.pid_bitmap ((first_pid s / 64 + j) % pid_bitmap_size)) b ≡ true)
        → (q : ℕ) → q < pid_max
        → used s q ≡ true
    in_use full q lt =
        subst (λ i. test_bit (s.pid_bitmap i) (q % 64) ≡ true)
          (round_of (first_pid s / 64) (q / 64) (omega arith))
          (full ((q / 64 + pid_bitmap_size - first_pid s / 64 % pid_bitmap_size) % pid_bitmap_size)
            (omega arith) (omega arith) (q % 64) (omega arith))

    all_words : (q : Option ℕ × Pids) → Rounds v pid_bitmap_size (first_pid s) 0 q → AllocResult s q
    all_words (some r, s') h = h
    all_words (none, s') (same, full) = (same, λ q lt. in_use full q lt)

-- On a bitmap of 64-bit words with PID 0 in use, `alloc_pid` does not fail after `free_pid` of a
-- number between 1 and `PID_MAX` - 1.
pub alloc_pid-free_pid :
    (s : Pids)
    → IsValid s
    → (pid : ℕ) → 0 < pid
    → pid < pid_max
    → (r : ℕ) × (s' : Pids) × (alloc_pid (free_pid s (pos pid)) ≡ (some r, s'))
alloc_pid-free_pid s v pid h k =
    given (alloc_pid (free_pid s (pos pid))) refl
      (alloc_pid-AllocResult (free_pid s (pos pid)) (free_pid-IsValid v (pos pid)))
  where
    clash : true ≡ (not (is_pid pid && pid == pid) && used s pid) → ⊥
    clash e = ground arith

    given :
        (q : Option ℕ × Pids)
        → alloc_pid (free_pid s (pos pid)) ≡ q
        → AllocResult (free_pid s (pos pid)) q
        → (r : ℕ) × (s' : Pids) × (alloc_pid (free_pid s (pos pid)) ≡ (some r, s'))
    given (some r, s') e a = (r, s', e)
    given (none, s') e a = absurd (clash (sym (a.1 pid k) ∙ free_pid-used s pid pid))
