-- ===== src/Drv/Uart/Ring.antt =====
-- The ring buffers of drivers/char/uart.c are bounded queues.
use minix_rv.Prelude.{
  ℕ, zero, suc, ◌+◌, ◌-◌, ◌%◌, ◌^◌, ◌≤◌, ◌<◌, ◌≡◌, refl, ap, ◌∙◌, inl, inr, true, false, none, some,
  pos, negsuc, List, [], ◌∷◌, ◌++◌, leb, ◌==◌, if◌then◌else◌, arith, length, Bool-cases, ◌⊎◌,
}
use minix_rv.Fs.Base.{update}
use minix_rv.Drv.Uart.{Buffer, Stats, buffer_size, buffer_put, buffer_get}

-- The `n` characters from `tail` on.
abbrev pub items : (ℕ → ℕ) → ℕ → ℕ → List ℕ
items bytes tail zero = []
items bytes tail (suc n) = bytes tail ∷ items bytes ((tail + 1) % buffer_size) n

abbrev pub contents : Buffer → List ℕ
contents buf = items buf.bytes buf.tail buf.count

pub record IsRing (buf : Buffer) : Type 0 where
  pub in_range : buf.tail < buffer_size
  pub bounded : buf.count ≤ buffer_size
  pub at_head : buf.head ≡ (buf.tail + buf.count) % buffer_size

-- A queue that holds `buffer_size` characters at most.
unfoldable pub enqueue : List ℕ → ℕ → List ℕ
enqueue q c = if leb buffer_size (length q) then q else q ++ (c ∷ [])

pub length-items : (bytes : ℕ → ℕ) (tail n : ℕ) → length (items bytes tail n) ≡ n
length-items bytes tail zero = refl
length-items bytes tail (suc n) = ap suc (length-items bytes ((tail + 1) % buffer_size) n)

items-snoc :
    (bytes : ℕ → ℕ) (tail n head c : ℕ)
    → n < buffer_size
    → tail < buffer_size
    → head ≡ (tail + n) % buffer_size
    → items (update bytes head c) tail (suc n) ≡ items bytes tail n ++ (c ∷ [])
items-snoc bytes tail zero head c h lt e = ap (λ x. x ∷ []) here
  where
    here : update bytes head c tail ≡ c
    here = ground (arith, lt, e)
items-snoc bytes tail (suc n) head c h lt e =
    ap (λ x. x ∷ items (update bytes head c) ((tail + 1) % buffer_size) (suc n)) kept
    ∙ ap (λ l. bytes tail ∷ l)
        (items-snoc bytes ((tail + 1) % buffer_size) n head c (omega (arith, h)) (omega arith)
          (omega (arith, e)))
  where
    kept : update bytes head c tail ≡ bytes tail
    kept = ground (arith, lt, e, h)

-- On a ring buffer `buffer_put` is `enqueue`: a character is appended and 0 returned unless the buffer holds 256
-- already, when the buffer is left alone, -1 is returned and the overrun is counted modulo 2 ^ 32; in both
-- cases the buffer stays a ring.
pub buffer_put-enqueue :
    (st : Stats) (buf : Buffer) (c : ℕ)
    → IsRing buf
    → let (result, st', buf') = buffer_put st buf c in
      IsRing buf'
      × (contents buf' ≡ enqueue (contents buf) c)
      × (result ≡ (if leb buffer_size (length (contents buf)) then negsuc 0 else pos 0))
      × (st'.overruns ≡ (
          if leb buffer_size (length (contents buf))
          then (st.overruns + 1) % 2 ^ 32
          else st.overruns))
      × (st'.rx_bytes ≡ st.rx_bytes)
unfolding buffer_put enqueue
buffer_put-enqueue st buf c ring = elim (Bool-cases (leb buffer_size buf.count)) [
  | inl full ↦ rw (size, full) (ring, refl, refl, refl, refl)
  | inr room ↦
      rw (size, room)
        (
          record {
            in_range = ring.in_range;
            bounded = ground (arith, room);
            at_head = omega (arith, ring.at_head, ring.in_range, ring.bounded);
          },
          ap (items (update buf.bytes buf.head c) buf.tail) one_more
              ∙ items-snoc buf.bytes buf.tail buf.count buf.head c (ground (arith, room))
                  ring.in_range ring.at_head,
          refl,
          refl,
          refl,
        )
]
  where
    size : length (contents buf) ≡ buf.count
    size = length-items buf.bytes buf.tail buf.count

    one_more : buf.count + 1 ≡ suc buf.count
    one_more = omega arith

-- On a ring buffer `buffer_get` takes the character that was put first: where there is none it returns -1, and else
-- it returns the first of the contents and leaves a ring of the others.
pub buffer_get-dequeue :
    (buf : Buffer)
    → IsRing buf
    → ((contents buf ≡ []) × (buffer_get buf ≡ none))
      ⊎ ((c : ℕ) × (buf' : Buffer) × (buffer_get buf ≡ some (c, buf'))
          × IsRing buf'
          × (contents buf ≡ c ∷ contents buf'))
unfolding buffer_get
buffer_get-dequeue buf ring = elim (Bool-cases (buf.count == 0)) [
  | inl none_left ↦ inl (ap (items buf.bytes buf.tail) (zero_count none_left), rw none_left refl)
  | inr more ↦ inr (
    buf.bytes buf.tail,
    rest,
    rw more refl,
    record {
      in_range = omega arith;
      bounded = omega (arith, ring.bounded);
      at_head = ground (arith, ring.at_head, ring.in_range, ring.bounded, more);
    },
    ap (items buf.bytes buf.tail) (some_count more),
  )
]
  where
    rest : Buffer
    rest = record buf { tail = (buf.tail + 1) % buffer_size; count = buf.count - 1 }

    zero_count : (buf.count == 0) ≡ true → buf.count ≡ 0
    zero_count e = ground (arith, e)

    some_count : (buf.count == 0) ≡ false → buf.count ≡ suc (buf.count - 1)
    some_count e = ground (arith, e)
