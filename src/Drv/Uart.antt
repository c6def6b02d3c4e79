-- ===== src/Drv/Uart.antt =====
-- The UART of drivers/char/uart.c and include/minix/uart.h, for the board `BOARD_QEMU_VIRT`. The registers
-- are those of a device, given by what a read and a write of one do; a character is its code.
pub mod Io
pub mod Ring
pub mod Output
pub mod Receive
mod Tests
use Prim.Native.Nat.{bit_and, bit_or}
use minix_rv.Prelude.{
  ℕ, zero, suc, ◌+◌, ◌-◌, ◌%◌, ◌^◌, Bool, true, false, Option, none, some, ℤ, pos, negsuc, List, [],
  ◌∷◌, leb, ◌==◌, if◌then◌else◌,
}
use minix_rv.Fs.Base.{update}

-- The device: `uart_read_reg` and `uart_write_reg` at an offset of its registers.
pub record Registers (D : Type 0) : Type 0 where
  pub read_reg : D → ℕ → ℕ × D
  pub write_reg : D → ℕ → ℕ → D

abbrev pub buffer_size : ℕ
buffer_size = 256

-- `UART_RBR`, `UART_THR` and `UART_DLL`
abbrev pub reg_data : ℕ
reg_data = 0x00

-- `UART_IER` and `UART_DLM`
abbrev pub reg_ier : ℕ
reg_ier = 0x04

-- `UART_IIR` and `UART_FCR`
abbrev pub reg_iir : ℕ
reg_iir = 0x08

abbrev pub reg_lcr : ℕ
reg_lcr = 0x0C

abbrev pub reg_mcr : ℕ
reg_mcr = 0x10

abbrev pub reg_lsr : ℕ
reg_lsr = 0x14

pub record Buffer : Type 0 where
  pub bytes : ℕ → ℕ
  pub head : ℕ
  pub tail : ℕ
  pub count : ℕ

pub record Config : Type 0 where
  pub baud_rate : ℕ
  pub data_bits : ℕ
  pub parity : ℕ
  pub stop_bits : ℕ

pub record Stats : Type 0 where
  pub tx_bytes : ℕ
  pub rx_bytes : ℕ
  pub tx_errors : ℕ
  pub rx_errors : ℕ
  pub overruns : ℕ

-- `uart_state`, and the static variable of `uart_getchar`
pub record Uart : Type 0 where
  pub rx_buffer : Buffer
  pub tx_buffer : Buffer
  pub stats : Stats
  pub config : Config
  pub tx_busy : ℕ
  pub last_read : ℕ

abbrev pub emptied : Buffer → Buffer
emptied buf = record buf { head = 0; tail = 0; count = 0 }

unfoldable pub uart_buffer_init : Uart → Uart
uart_buffer_init u = record {
  rx_buffer = emptied u.rx_buffer;
  tx_buffer = emptied u.tx_buffer;
  stats = record { tx_bytes = 0; rx_bytes = 0; tx_errors = 0; rx_errors = 0; overruns = 0 };
  config = record { baud_rate = 115200; data_bits = 8; parity = 0; stop_bits = 1 };
  tx_busy = 0;
  last_read = u.last_read;
}

-- The result, the statistics and the buffer.
unfoldable pub buffer_put : Stats → Buffer → ℕ → ℤ × Stats × Buffer
buffer_put st buf c =
    if leb buffer_size buf.count
    then (negsuc 0, record st { overruns = (st.overruns + 1) % 2 ^ 32 }, buf)
    else (
      pos 0,
      st,
      record {
        bytes = update buf.bytes buf.head c;
        head = (buf.head + 1) % buffer_size;
        tail = buf.tail;
        count = buf.count + 1;
      },
    )

-- `none` for the result -1.
unfoldable pub buffer_get : Buffer → Option (ℕ × Buffer)
buffer_get buf =
    if buf.count == 0
    then none
    else some (
      buf.bytes buf.tail,
      record buf { tail = (buf.tail + 1) % buffer_size; count = buf.count - 1 },
    )

unfoldable pub buffer_peek : Buffer → Option ℕ
buffer_peek buf = if buf.count == 0 then none else some (buf.bytes buf.tail)

unfoldable pub uart_flush_tx : Uart → Uart
uart_flush_tx u = record u { tx_buffer = emptied u.tx_buffer }

-- `UART_DATA_5` to `UART_DATA_8`, and the others refused.
unfoldable pub data_bits_lcr : ℕ → Option ℕ
data_bits_lcr n =
    if n == 5
    then some 0x00
    else if n == 6
    then some 0x01
    else if n == 7
    then some 0x02
    else if n == 8
    then some 0x03
    else none

unfoldable pub parity_lcr : ℕ → ℕ → Option ℕ
parity_lcr lcr n =
    if n == 0
    then some lcr
    else if n == 1
    then some (bit_or lcr 0x08)
    else if n == 2
    then some (bit_or lcr 0x18)
    else none

unfoldable pub stop_lcr : ℕ → ℕ → ℕ
stop_lcr lcr n = if n == 2 then bit_or lcr 0x04 else lcr

-- The line control of a configuration, or `none` where `uart_configure` gives up.
unfoldable pub config_lcr : Config → Option ℕ
config_lcr config = elim (data_bits_lcr config.data_bits) [
  | none ↦ none
  | some lcr ↦ elim (parity_lcr lcr config.parity) [
    | none ↦ none
    | some lcr' ↦ some (stop_lcr lcr' config.stop_bits)
  ]
]

abbrev pub count_tx : Uart → Uart
count_tx u = record u { stats = record u.stats { tx_bytes = (u.stats.tx_bytes + 1) % 2 ^ 64 } }

abbrev pub count_rx : Uart → Uart
count_rx u = record u { stats = record u.stats { rx_bytes = (u.stats.rx_bytes + 1) % 2 ^ 64 } }

-- One character into the receive buffer, which counts it even where the buffer is full.
unfoldable pub receive_one : Uart → ℕ → Uart
unfolding buffer_put
receive_one u c =
    let (_, st, buf) = buffer_put u.stats u.rx_buffer c in
    count_rx (record u { stats = st; rx_buffer = buf })
