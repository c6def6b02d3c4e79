-- ===== src/Drv/Uart/Io.antt =====
-- The operations of drivers/char/uart.c on the device.
use Prim.Native.Nat.{bit_and, bit_or}
use minix_rv.Prelude.{
  ℕ, zero, suc, ◌-◌, ◌^◌, Bool, true, false, Option, none, some, ℤ, pos, negsuc, List, [], ◌∷◌,
  ◌==◌, if◌then◌else◌,
}
use minix_rv.Drv.Uart.{
  Registers, reg_data, reg_ier, reg_iir, reg_lcr, reg_mcr, reg_lsr, Config, Uart, emptied,
  uart_buffer_init, buffer_get, config_lcr, count_tx, count_rx, receive_one,
}

module _ {D : Type 0} (io : Registers D) where
  unfoldable pub uart_init_board : D → D
  uart_init_board d0 =
      let d1 = io.write_reg d0 reg_ier 0x00 in
      let d2 = io.write_reg d1 reg_lcr 0x80 in
      let d3 = io.write_reg d2 reg_data 1 in
      let d4 = io.write_reg d3 reg_ier 0 in
      let d5 = io.write_reg d4 reg_lcr 0x03 in
      let d6 = io.write_reg d5 reg_iir 0x01 in io.write_reg d6 reg_mcr 0x03

  unfoldable pub console_init : Uart → D → Uart × D
  unfolding uart_buffer_init uart_init_board
  console_init u d = (uart_buffer_init u, uart_init_board d)

  -- After a line feed (10) a carriage return (13) is sent.
  unfoldable pub uart_putc : D → ℕ → D
  uart_putc d c =
      if c == 10
      then io.write_reg (io.write_reg d reg_data c) reg_data 13
      else io.write_reg d reg_data c

  unfoldable pub rx_ready : D → Bool × D
  rx_ready d =
      let (lsr, d') = io.read_reg d reg_lsr in ((if bit_and lsr 0x01 == 0 then false else true), d')

  unfoldable pub uart_haschar : D → ℕ × D
  uart_haschar d =
      let (lsr, d') = io.read_reg d reg_lsr in ((if bit_and lsr 0x01 == 0 then 0 else 1), d')

  unfoldable pub uart_getchar : Uart → D → ℕ × Uart × D
  uart_getchar u d =
      let (value, d') = io.read_reg d reg_data in
      let ch = bit_and value 0xFF in
      if ch == u.last_read then (0, u, d') else (ch, record u { last_read = ch }, d')

  -- `none` for the result -1.
  unfoldable pub uart_getc : D → Option ℕ × D
  uart_getc d =
      let (lsr, d') = io.read_reg d reg_lsr in
      if bit_and lsr 0x01 == 0
      then (none, d')
      else (let (value, d'') = io.read_reg d' reg_data in (some (bit_and value 0xFF), d''))

  -- The characters before the NUL of a string.
  pub uart_puts : D → List ℕ → D
  uart_puts d [] = d
  uart_puts d (c ∷ s) = uart_puts (uart_putc d c) s

  -- What `uart_configure` writes before it looks at the configuration.
  unfoldable pub begin_configure : D → D
  begin_configure d0 =
      let d1 = io.write_reg d0 reg_ier 0x00 in
      let d2 = io.write_reg d1 reg_lcr 0x80 in
      let d3 = io.write_reg d2 reg_data 1 in io.write_reg d3 reg_ier 0

  unfoldable pub uart_configure : Uart → D → Option Config → ℤ × Uart × D
  unfolding begin_configure config_lcr
  uart_configure u d none = (negsuc 0, u, d)
  uart_configure u d (some config) =
      let u' = record u { config = config } in
      elim (config_lcr config) [
        | none ↦ (negsuc 0, u', begin_configure d)
        | some lcr ↦ (pos 0, u', io.write_reg (begin_configure d) reg_lcr lcr)
      ]

  -- The loop of `uart_write` over the data.
  unfoldable pub uart_write : Uart → D → List ℕ → Uart × D
  unfolding uart_putc
  uart_write u d [] = (u, d)
  uart_write u d (c ∷ s) = uart_write (count_tx u) (uart_putc d c) s

  -- `len` characters at most, those that are there.
  unfoldable pub uart_read : ℕ → Uart → D → List ℕ × Uart × D
  uart_read zero u d = ([], u, d)
  uart_read (suc len) u d =
      let (c, d') = uart_getc d in
      elim c [
        | none ↦ ([], u, d')
        | some c ↦ let (rest, u', d'') = uart_read len (count_rx u) d' in (c ∷ rest, u', d'')
      ]

  -- The loop that empties the receiver, in `n` rounds at most.
  unfoldable pub drain : ℕ → D → D
  drain zero d = d
  drain (suc n) d =
      let (ready, d') = rx_ready d in
      elim ready [ false ↦ d' | true ↦ drain n (io.read_reg d' reg_data).1 ]

  unfoldable pub uart_flush_rx : ℕ → Uart → D → Uart × D
  unfolding drain
  uart_flush_rx n u d = (record u { rx_buffer = emptied u.rx_buffer }, drain n d)

  -- `ier |= bits`, and `ier &= ~bits` of 32 bits
  unfoldable pub enable_interrupt : ℕ → D → D
  enable_interrupt bits d =
      let (ier, d') = io.read_reg d reg_ier in io.write_reg d' reg_ier (bit_or ier bits)

  unfoldable pub disable_interrupt : ℕ → D → D
  disable_interrupt bits d =
      let (ier, d') = io.read_reg d reg_ier in
      io.write_reg d' reg_ier (bit_and ier (2 ^ 32 - 1 - bits))

  -- The loop of the handler over the characters received, in `n` rounds at most.
  unfoldable pub receive : ℕ → Uart → D → Uart × D
  unfolding receive_one
  receive zero u d = (u, d)
  receive (suc n) u d =
      let (ready, d') = rx_ready d in
      elim ready [
        | false ↦ (u, d')
        | true ↦
            let (value, d'') = io.read_reg d' reg_data in
            receive n (receive_one u (bit_and value 0xFF)) d''
      ]

  unfoldable pub transmit : Uart → D → Uart × D
  unfolding buffer_get disable_interrupt
  transmit u d = elim (buffer_get u.tx_buffer) [
    | none ↦ (record u { tx_busy = 0 }, disable_interrupt 0x02 d)
    | some (c, buf) ↦ (count_tx (record u { tx_buffer = buf }), io.write_reg d reg_data c)
  ]

  unfoldable pub uart_interrupt_handler : ℕ → Uart → D → Uart × D
  unfolding receive transmit
  uart_interrupt_handler n u d =
      let (iir, d') = io.read_reg d reg_iir in
      if bit_and iir 0x0F == 0x04
      then receive n u d'
      else if bit_and iir 0x0F == 0x02
      then transmit u d'
      else (u, d')
