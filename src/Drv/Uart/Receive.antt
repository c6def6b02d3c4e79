-- ===== src/Drv/Uart/Receive.antt =====
-- The receiving side of drivers/char/uart.c: the interrupt handler moves the characters of the device to the
-- receive buffer.
use minix_rv.Prelude.{
  ℕ, zero, suc, ◌-◌, ◌≤◌, ◌≡◌, refl, sym, ap, ◌∙◌, inl, inr, true, false, List, [], ◌∷◌, ◌++◌, leb,
  arith, length, Bool-cases, take, length-append,
}
use Prim.Native.Nat.{bit_and}
use minix_rv.Drv.Uart.{Registers, Uart, buffer_size, reg_data, reg_iir, reg_lsr, receive_one}
use minix_rv.Drv.Uart.Io.{rx_ready, receive, uart_interrupt_handler}
use minix_rv.Drv.Uart.Ring.{IsRing, contents, enqueue, buffer_put-enqueue}

-- What the driver relies on of a 16550 UART, whose received characters are `pending`: the line status tells
-- whether there are any, reading the data register takes the first, and reading another leaves them.
pub record IsReceiver {D : Type 0} (io : Registers D) (pending : D → List ℕ) : Type 0 where
  pub status : (d : D) → pending (io.read_reg d reg_lsr).1 ≡ pending d
  pub ident : (d : D) → pending (io.read_reg d reg_iir).1 ≡ pending d
  pub empty : (d : D) → pending d ≡ [] → bit_and (io.read_reg d reg_lsr).0 0x01 ≡ 0
  pub ready :
      (d : D) (c : ℕ) (q : List ℕ) → pending d ≡ c ∷ q → bit_and (io.read_reg d reg_lsr).0 0x01 ≡ 1
  pub value :
      (d : D) (c : ℕ) (q : List ℕ) → pending d ≡ c ∷ q → bit_and (io.read_reg d reg_data).0 0xFF ≡ c
  pub taken :
      (d : D) (c : ℕ) (q : List ℕ) → pending d ≡ c ∷ q → pending (io.read_reg d reg_data).1 ≡ q

abbrev pub enqueue_all : List ℕ → List ℕ → List ℕ
enqueue_all q [] = q
enqueue_all q (c ∷ s) = enqueue_all (enqueue q c) s

append_nil : (q : List ℕ) → q ++ [] ≡ q
append_nil [] = refl
append_nil (x ∷ q) = ap (λ l. x ∷ l) (append_nil q)

append_assoc : (q r s : List ℕ) → (q ++ r) ++ s ≡ q ++ (r ++ s)
append_assoc [] r s = refl
append_assoc (x ∷ q) r s = ap (λ l. x ∷ l) (append_assoc q r s)

-- What finds room is kept, the rest is lost.
enqueue_all-take : (s q : List ℕ) → enqueue_all q s ≡ q ++ take (buffer_size - length q) s
unfolding enqueue
enqueue_all-take [] q = sym (append_nil q) ∙ ap (λ l. q ++ l) (nil_take (buffer_size - length q))
  where
    nil_take : (n : ℕ) → ◌≡◌ {A = List ℕ} [] (take n [])
    nil_take zero = refl
    nil_take (suc n) = refl
enqueue_all-take (c ∷ s) q = elim (Bool-cases (leb buffer_size (length q))) [
  | inl full ↦
      rw full (enqueue_all-take s q)
      ∙ ap (λ n. q ++ take n s) (no_room full)
      ∙ ap (λ n. q ++ take n (c ∷ s)) (sym (no_room full))
  | inr room ↦
      rw room (enqueue_all-take s (q ++ (c ∷ [])))
      ∙ append_assoc q (c ∷ []) (take (buffer_size - length (q ++ (c ∷ []))) s)
      ∙ ap (λ n. q ++ (c ∷ take n s)) (omega (arith, length-append q (c ∷ [])))
      ∙ ap (λ n. q ++ take n (c ∷ s)) (some_room room)
]
  where
    no_room : leb buffer_size (length q) ≡ true → buffer_size - length q ≡ 0
    no_room e = ground (arith, e)

    some_room :
        leb buffer_size (length q) ≡ false
        → suc (buffer_size - length q - 1) ≡ buffer_size - length q
    some_room e = ground (arith, e)

-- What the receive buffer takes of the characters `s`, and the device is left without any.
abbrev Received : {D : Type 0} → (D → List ℕ) → Uart → List ℕ → Uart × D → Type 0
Received pending u s (u', d') =
    IsRing u'.rx_buffer
    × (contents u'.rx_buffer ≡ enqueue_all (contents u.rx_buffer) s)
    × (pending d' ≡ [])

receive_one-enqueue :
    (u : Uart) (c : ℕ)
    → IsRing u.rx_buffer
    → IsRing (receive_one u c).rx_buffer
      × (contents (receive_one u c).rx_buffer ≡ enqueue (contents u.rx_buffer) c)
unfolding receive_one
receive_one-enqueue u c ring =
    let (ring', same, _, _, _) = buffer_put-enqueue u.stats u.rx_buffer c ring in (ring', same)

module _ {D : Type 0} (io : Registers D) (pending : D → List ℕ) (rx : IsReceiver io pending) where
  receive-enqueue_all :
      (n : ℕ) (s : List ℕ) (u : Uart) (d : D)
      → pending d ≡ s
      → length s ≤ n
      → IsRing u.rx_buffer
      → Received pending u s (receive io n u d)
  unfolding receive rx_ready
  receive-enqueue_all zero [] u d e h ring = (ring, refl, e)
  receive-enqueue_all zero (c ∷ s) u d e h ring = absurd (omega (arith, h))
  receive-enqueue_all (suc n) [] u d e h ring =
      rw (rx.empty d e, receive) (ring, refl, rx.status d ∙ e)
  receive-enqueue_all (suc n) (c ∷ s) u d e h ring =
      let d' = (io.read_reg d reg_lsr).1 in
      let e' = rx.status d ∙ e in
      let u' = receive_one u (bit_and (io.read_reg d' reg_data).0 0xFF) in
      let (ring', same) = receive_one-enqueue u (bit_and (io.read_reg d' reg_data).0 0xFF) ring in
      let (done, all, none_left) =
        receive-enqueue_all n s u' (io.read_reg d' reg_data).1 (rx.taken d' c s e')
          (omega (arith, h)) ring' in
      rw (rx.ready d c s e, receive)
        (
          done,
          all
              ∙ ap (λ q. enqueue_all q s)
                  (same ∙ ap (enqueue (contents u.rx_buffer)) (rx.value d' c s e')),
          none_left,
        )

  -- On a 16550 UART with the characters `s` received, that tells of received data, and a ring for the receive buffer:
  -- in as many rounds as there are characters or more, the handler leaves the device without any, and a ring
  -- whose contents are those before with the first of `s` behind them, as many as find room in 256; the others
  -- are lost.
  pub uart_interrupt_handler-received :
      (n : ℕ) (s : List ℕ) (u : Uart) (d : D)
      → pending d ≡ s
      → length s ≤ n
      → IsRing u.rx_buffer
      → bit_and (io.read_reg d reg_iir).0 0x0F ≡ 0x04
      → let (u', d') = uart_interrupt_handler io n u d in
        IsRing u'.rx_buffer
        × (contents u'.rx_buffer
            ≡ contents u.rx_buffer ++ take (buffer_size - length (contents u.rx_buffer)) s)
        × (pending d' ≡ [])
  unfolding uart_interrupt_handler
  uart_interrupt_handler-received n s u d e h ring type =
      let (done, all, none_left) =
        receive-enqueue_all n s u (io.read_reg d reg_iir).1 (rx.ident d ∙ e) h ring in
      rw (type, uart_interrupt_handler)
        (done, all ∙ enqueue_all-take s (contents u.rx_buffer), none_left)
