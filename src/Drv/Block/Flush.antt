-- ===== src/Drv/Block/Flush.antt =====
-- What `blockdev_flush` of drivers/block/blockdev.c leaves in the cache.
use mathlib.Core.Path.{subst}
use native.Mathlib.Decide.{ℕ_discrete}
use minix_rv.Prelude.{
  ℕ, zero, suc, ◌+◌, ◌≤◌, ◌<◌, ◌≡◌, ◌≢◌, refl, sym, ap, ◌∙◌, inl, inr, ◌⊎◌, false, some, ℤ, pos,
  negsuc, if◌then◌else◌, arith, Bool-cases,
}
use minix_rv.Fs.Base.{update}
use minix_rv.Drv.Block.{
  World, Dev, Entry, Blocks, cache_size, writer, is_pending, flush_entry, flush_from,
  blockdev_flush,
}

int_cases : (z : ℤ) → ((n : ℕ) × (z ≡ pos n)) ⊎ ((n : ℕ) × (z ≡ negsuc n))
int_cases (pos n) = inl (n, refl)
int_cases (negsuc n) = inr (n, refl)

module _ {K : Type 0} (write_block : World K → ℕ → ℕ → ℕ → ℤ × World K) (dev : ℕ) where
  -- The loop's body at the `i`th entry.
  abbrev step : ℕ → ℤ × (ℕ → Entry) × World K → ℤ × (ℕ → Entry) × World K
  step i (result, cache, w) =
      if is_pending (cache i) dev
      then flush_entry write_block i (result, cache, w)
      else (result, cache, w)

  flush_entry-other :
      (i j : ℕ) (result : ℤ) (cache : ℕ → Entry) (w : World K)
      → j ≢ i
      → (flush_entry write_block i (result, cache, w)).1 j ≡ cache j
  unfolding flush_entry
  flush_entry-other i j result cache w ne = ground (arith, ne)

  step-other : (i j : ℕ) (st : ℤ × (ℕ → Entry) × World K) → j ≢ i → (step i st).1 j ≡ st.1 j
  step-other i j (result, cache, w) ne = elim (Bool-cases (is_pending (cache i) dev)) [
    | inl dirty ↦ rw dirty (flush_entry-other i j result cache w ne)
    | inr clean ↦ rw clean refl
  ]

  flush_entry-clean :
      (i : ℕ) (result : ℤ) (cache : ℕ → Entry) (w : World K)
      → (flush_entry write_block i (result, cache, w)).0 ≡ pos 0
      → (result ≡ pos 0)
        × (is_pending ((flush_entry write_block i (result, cache, w)).1 i) dev ≡ false)
  unfolding flush_entry is_pending
  flush_entry-clean i result cache w e =
      elim (int_cases (write_block w (cache i).block_num (cache i).bytes 1).0) [
        | inl (n, written) ↦ (sym (kept n written) ∙ e, rw (written, flush_entry) cleaned)
        | inr (n, failed) ↦ absurd (cc (lost n failed, e))
      ]
    where
      kept :
          (n : ℕ)
          → (write_block w (cache i).block_num (cache i).bytes 1).0 ≡ pos n
          → (flush_entry write_block i (result, cache, w)).0 ≡ result
      kept n written = rw (written, flush_entry) refl

      lost :
          (n : ℕ)
          → (write_block w (cache i).block_num (cache i).bytes 1).0 ≡ negsuc n
          → (flush_entry write_block i (result, cache, w)).0 ≡ negsuc 0
      lost n failed = rw (failed, flush_entry) refl

      cleaned : is_pending (update cache i (record (cache i) { dirty = 0 }) i) dev ≡ false
      cleaned = ground arith

  step-clean :
      (i : ℕ) (st : ℤ × (ℕ → Entry) × World K)
      → (step i st).0 ≡ pos 0
      → (st.0 ≡ pos 0) × (is_pending ((step i st).1 i) dev ≡ false)
  step-clean i (result, cache, w) = elim (Bool-cases (is_pending (cache i) dev)) [
    | inl dirty ↦ rw dirty (flush_entry-clean i result cache w)
    | inr clean ↦ rw clean (λ e. (e, clean))
  ]

  flush_from-other :
      (n i j : ℕ) (st : ℤ × (ℕ → Entry) × World K)
      → (j < i) ⊎ (i + n ≤ j)
      → (flush_from (some write_block) dev n i st).1 j ≡ st.1 j
  unfolding flush_from
  flush_from-other zero i j (result, cache, w) h = refl
  flush_from-other (suc n) i j (result, cache, w) h =
      flush_from-other n (suc i) j (step i (result, cache, w)) (onward h)
      ∙ step-other i j (result, cache, w) (apart h)
    where
      onward : (j < i) ⊎ (i + suc n ≤ j) → (j < suc i) ⊎ (suc i + n ≤ j)
      onward (inl h) = inl (omega (arith, h))
      onward (inr h) = inr (omega (arith, h))

      apart : (j < i) ⊎ (i + suc n ≤ j) → j ≢ i
      apart (inl h) z = omega (arith, h, z)
      apart (inr h) z = omega (arith, h, z)

  flush_from-clean :
      (n i : ℕ) (st : ℤ × (ℕ → Entry) × World K)
      → (flush_from (some write_block) dev n i st).0 ≡ pos 0
      → (st.0 ≡ pos 0)
        × ((j : ℕ)
            → i ≤ j
            → j < i + n
            → is_pending ((flush_from (some write_block) dev n i st).1 j) dev ≡ false)
  unfolding flush_from
  flush_from-clean zero i (result, cache, w) e = (e, λ j h k. absurd (omega (arith, h, k)))
  flush_from-clean (suc n) i (result, cache, w) e =
      let (here, later) = flush_from-clean n (suc i) (step i (result, cache, w)) e in
      let (before, clean) = step-clean i (result, cache, w) here in
      (
        before,
        λ j h k. elim (ℕ_discrete j i) [
          | yes same ↦
              ap (λ (c : Entry). is_pending c dev)
                (flush_from-other n (suc i) j (step i (result, cache, w))
                  (inl (omega (arith, same))))
              ∙ ap (λ m. is_pending ((step i (result, cache, w)).1 m) dev) same
              ∙ clean
          | no ne ↦ later j (omega (arith, h, ne)) (omega (arith, k))
        ],
      )

-- Where the device has an operation to write and `blockdev_flush` returns 0, no entry of the cache that holds a block
-- of the device is dirty any more.
pub blockdev_flush-clean :
    {K : Type 0} (s : Blocks K) (w : World K) (dev : Dev K)
    (write_block : World K → ℕ → ℕ → ℕ → ℤ × World K)
    → writer dev.ops ≡ some write_block
    → (blockdev_flush s w dev).0 ≡ pos 0
    → (j : ℕ) → j < cache_size
    → is_pending ((blockdev_flush s w dev).1.cache j) dev.self ≡ false
unfolding blockdev_flush
blockdev_flush-clean s w dev write_block has done j h =
    subst
      (λ o.
        (flush_from o dev.self cache_size 0 (pos 0, s.cache, w)).0 ≡ pos 0
        → is_pending ((flush_from o dev.self cache_size 0 (pos 0, s.cache, w)).1 j) dev.self
          ≡ false)
      (sym has)
      (λ e.
        (flush_from-clean write_block dev.self cache_size 0 (pos 0, s.cache, w) e).1 j (omega arith)
          (omega (arith, h)))
      done
