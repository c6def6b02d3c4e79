-- ===== src/Drv/Uart/Tests.antt =====
-- Small states of the UART driver of drivers/char/uart.c.
use Prim.Native.Nat.{bit_and}
use minix_rv.Prelude.{
  ℕ, ◌+◌, ◌%◌, ◌^◌, ◌≡◌, refl, ◌⊎◌, none, some, pos, negsuc, List, [], ◌∷◌, ◌++◌, leb, ◌==◌,
  if◌then◌else◌, arith, length, take,
}
use minix_rv.Drv.Uart.{Registers, Buffer, Uart, buffer_size, buffer_put, buffer_get}
use minix_rv.Drv.Uart.Io.{uart_write, uart_interrupt_handler}
use minix_rv.Drv.Uart.Ring.{IsRing, contents, enqueue, buffer_put-enqueue, buffer_get-dequeue}
use minix_rv.Drv.Uart.Receive.{IsReceiver, uart_interrupt_handler-received}
use minix_rv.Drv.Uart.Output.{send, expand, uart_write-send}

abbrev line_read : List ℕ → ℕ → ℕ × List ℕ
line_read [] r = (0, [])
line_read (c ∷ q) r = if r == 0x14 then (1, c ∷ q) else if r == 0x08 then (4, c ∷ q) else (c, q)

-- A UART whose state is the characters received: the line status and the interrupt's kind follow from them.
abbrev line : Registers (List ℕ)
line = record { read_reg = line_read; write_reg = λ d r v. d }

-- The characters that it gives are those below 256.
abbrev given : List ℕ → List ℕ
given [] = []
given (c ∷ q) = bit_and c 0xFF ∷ given q

line_status : (d : List ℕ) → given (line_read d 0x14).1 ≡ given d
line_status [] = refl
line_status (c ∷ q) = refl

line_ident : (d : List ℕ) → given (line_read d 0x08).1 ≡ given d
line_ident [] = refl
line_ident (c ∷ q) = refl

line_empty : (d : List ℕ) → given d ≡ [] → bit_and (line_read d 0x14).0 0x01 ≡ 0
line_empty [] e = refl
line_empty (c ∷ q) e = absurd (cc)

line_ready :
    (d : List ℕ) (c : ℕ) (q : List ℕ) → given d ≡ c ∷ q → bit_and (line_read d 0x14).0 0x01 ≡ 1
line_ready [] c q e = absurd (cc)
line_ready (x ∷ d) c q e = refl

line_value :
    (d : List ℕ) (c : ℕ) (q : List ℕ) → given d ≡ c ∷ q → bit_and (line_read d 0).0 0xFF ≡ c
line_value [] c q e = absurd (cc)
line_value (x ∷ d) c q e = cc

line_taken : (d : List ℕ) (c : ℕ) (q : List ℕ) → given d ≡ c ∷ q → given (line_read d 0).1 ≡ q
line_taken [] c q e = absurd (cc)
line_taken (x ∷ d) c q e = cc

line-IsReceiver : IsReceiver line given
line-IsReceiver = record {
  status = line_status;
  ident = line_ident;
  empty = line_empty;
  ready = line_ready;
  value = line_value;
  taken = line_taken;
}

abbrev no_bytes : Buffer
no_bytes = record { bytes = λ i. 0; head = 250; tail = 250; count = 0 }

no_bytes-IsRing : IsRing no_bytes
no_bytes-IsRing = record { in_range = omega arith; bounded = omega arith; at_head = refl }

abbrev quiet : Uart
quiet = record {
  rx_buffer = no_bytes;
  tx_buffer = no_bytes;
  stats = record { tx_bytes = 0; rx_bytes = 0; tx_errors = 0; rx_errors = 0; overruns = 0 };
  config = record { baud_rate = 115200; data_bits = 8; parity = 0; stop_bits = 1 };
  tx_busy = 0;
  last_read = 0xFF;
}

buffer_put-enqueue_example :
    let (result, st', buf') = buffer_put quiet.stats no_bytes 65 in
    IsRing buf'
    × (contents buf' ≡ enqueue (contents no_bytes) 65)
    × (result ≡ (if leb buffer_size (length (contents no_bytes)) then negsuc 0 else pos 0))
    × (st'.overruns ≡ (
        if leb buffer_size (length (contents no_bytes))
        then (quiet.stats.overruns + 1) % 2 ^ 32
        else quiet.stats.overruns))
    × (st'.rx_bytes ≡ quiet.stats.rx_bytes)
buffer_put-enqueue_example = buffer_put-enqueue quiet.stats no_bytes 65 no_bytes-IsRing

buffer_get-dequeue_example :
    ((contents no_bytes ≡ []) × (buffer_get no_bytes ≡ none))
    ⊎ ((c : ℕ) × (buf' : Buffer) × (buffer_get no_bytes ≡ some (c, buf'))
        × IsRing buf'
        × (contents no_bytes ≡ c ∷ contents buf'))
buffer_get-dequeue_example = buffer_get-dequeue no_bytes no_bytes-IsRing

uart_interrupt_handler-received_example :
    let (u', d') = uart_interrupt_handler line 3 quiet (72 ∷ 105 ∷ []) in
    IsRing u'.rx_buffer × (contents u'.rx_buffer ≡ [] ++ take 256 (72 ∷ 105 ∷ [])) × (given d' ≡ [])
uart_interrupt_handler-received_example =
    uart_interrupt_handler-received line given line-IsReceiver 3 (72 ∷ 105 ∷ []) quiet
      (72 ∷ 105 ∷ []) refl (omega arith) no_bytes-IsRing refl

uart_write-send_example : uart_write line quiet [] (10 ∷ []) ≡ (
  record quiet { stats = record quiet.stats { tx_bytes = 1 } },
  send line [] (expand (10 ∷ [])),
)
uart_write-send_example = uart_write-send line (10 ∷ []) quiet [] (omega arith)
