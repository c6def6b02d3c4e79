-- ===== src/Drv/Uart/Output.antt =====
-- What drivers/char/uart.c sends, and the line control that it sets.
use Prim.Native.Nat.{bit_or}
use minix_rv.Prelude.{
  ℕ, zero, suc, ◌+◌, ◌-◌, ◌%◌, ◌^◌, ◌<◌, ◌≡◌, refl, ap, ◌∙◌, inl, inr, Bool, true, false, Option,
  none, some, List, [], ◌∷◌, leb, ◌==◌, ◌&&◌, if◌then◌else◌, arith, length, Bool-cases,
}
use minix_rv.Drv.Uart.{
  Registers, Uart, Config, reg_data, count_tx, config_lcr, data_bits_lcr, parity_lcr, stop_lcr,
}
use minix_rv.Drv.Uart.Io.{uart_putc, uart_write}

-- The characters one after the other into the transmit register.
abbrev pub send : {D : Type 0} → Registers D → D → List ℕ → D
send io d [] = d
send io d (c ∷ s) = send io (io.write_reg d reg_data c) s

-- A carriage return after each line feed.
abbrev pub expand : List ℕ → List ℕ
expand [] = []
expand (c ∷ s) = if c == 10 then c ∷ 13 ∷ expand s else c ∷ expand s

uart_putc-send :
    {D : Type 0} (io : Registers D) (d : D) (c : ℕ) (s : List ℕ)
    → send io (uart_putc io d c) s ≡ send io d (if c == 10 then c ∷ 13 ∷ s else c ∷ s)
unfolding uart_putc
uart_putc-send io d c s = elim (Bool-cases (c == 10)) [
  | inl newline ↦ rw newline refl
  | inr other ↦ rw other refl
]

-- On any device and data, `uart_write` sends the data with a carriage return after each line feed, and counts the
-- characters of the data modulo 2 ^ 64, not the carriage returns; nothing else of the state changes.
pub uart_write-send :
    {D : Type 0} (io : Registers D) (s : List ℕ) (u : Uart) (d : D)
    → u.stats.tx_bytes < 2 ^ 64
    → uart_write io u d s ≡ (
      record u { stats = record u.stats { tx_bytes = (u.stats.tx_bytes + length s) % 2 ^ 64 } },
      send io d (expand s),
    )
unfolding uart_write
uart_write-send io [] u d h =
    ap (λ n. (record u { stats = record u.stats { tx_bytes = n } }, d)) small
  where
    small : u.stats.tx_bytes ≡ (u.stats.tx_bytes + 0) % 2 ^ 64
    small = omega (arith, h)
uart_write-send io (c ∷ s) u d h =
    uart_write-send io s (count_tx u) (uart_putc io d c) (omega arith)
    ∙ ap
        (λ n. (
          record u { stats = record u.stats { tx_bytes = n } },
          send io (uart_putc io d c) (expand s),
        ))
        counted
    ∙ ap
        (λ d'. (
          record u {
            stats = record u.stats { tx_bytes = (u.stats.tx_bytes + suc (length s)) % 2 ^ 64 };
          },
          d',
        ))
        (uart_putc-send io d c (expand s))
  where
    counted :
        ((u.stats.tx_bytes + 1) % 2 ^ 64 + length s) % 2 ^ 64
        ≡ (u.stats.tx_bytes + suc (length s)) % 2 ^ 64
    counted = omega arith

-- The line control for a configuration, where it is accepted.
abbrev pub line_control : ℕ → ℕ → ℕ → ℕ
line_control data_bits parity stop_bits =
    (data_bits - 5)
    + (if stop_bits == 2 then 4 else 0)
    + (if parity == 1 then 8 else if parity == 2 then 24 else 0)

-- The data bits as a reference has them.
data_bits_lcr-sub : (n : ℕ) → data_bits_lcr n ≡ (if leb 5 n && leb n 8 then some (n - 5) else none)
unfolding data_bits_lcr
data_bits_lcr-sub n = ground arith

-- The data's two bits, the parity's and the stop bits' make up the line control.
joined :
    (lcr parity : ℕ) (two_stops : Bool)
    → lcr < 4
    → (elim (parity_lcr lcr parity) [
      | none ↦ none
      | some l ↦ some (if two_stops then bit_or l 4 else l)
    ])
      ≡ (if leb parity 2
          then some (
              lcr
              + (if two_stops then 4 else 0)
              + (if parity == 1 then 8 else if parity == 2 then 24 else 0))
          else none)
unfolding parity_lcr
joined zero zero c h = ground arith
joined zero (suc zero) c h = ground arith
joined zero (suc (suc zero)) c h = ground arith
joined zero (suc (suc (suc p))) c h = ground arith
joined (suc zero) zero c h = ground arith
joined (suc zero) (suc zero) c h = ground arith
joined (suc zero) (suc (suc zero)) c h = ground arith
joined (suc zero) (suc (suc (suc p))) c h = ground arith
joined (suc (suc zero)) zero c h = ground arith
joined (suc (suc zero)) (suc zero) c h = ground arith
joined (suc (suc zero)) (suc (suc zero)) c h = ground arith
joined (suc (suc zero)) (suc (suc (suc p))) c h = ground arith
joined (suc (suc (suc zero))) zero c h = ground arith
joined (suc (suc (suc zero))) (suc zero) c h = ground arith
joined (suc (suc (suc zero))) (suc (suc zero)) c h = ground arith
joined (suc (suc (suc zero))) (suc (suc (suc p))) c h = ground arith
joined (suc (suc (suc (suc l)))) p c h = ground arith

-- `uart_configure` accepts a configuration exactly where it has 5 to 8 data bits and a parity of 0 to 2, whatever the
-- other fields; its line control is then the sum of the fields of the register: the data bits less 5, 4 for
-- 2 stop bits, and 8 or 24 for odd or even parity.
pub config_lcr-line_control :
    (config : Config)
    → config_lcr config ≡ (
        if leb 5 config.data_bits && leb config.data_bits 8 && leb config.parity 2
        then some (line_control config.data_bits config.parity config.stop_bits)
        else none)
unfolding config_lcr stop_lcr
config_lcr-line_control config = elim (Bool-cases (leb 5 config.data_bits)) [
  | inr few ↦ ap rest (by_few few) ∙ rw few refl
  | inl enough ↦ elim (Bool-cases (leb config.data_bits 8)) [
    | inr many ↦ ap rest (by_many enough many) ∙ rw (enough, many) refl
    | inl fits ↦
        ap rest (by_fits enough fits)
        ∙ joined (config.data_bits - 5) config.parity (config.stop_bits == 2)
            (ground (arith, enough, fits))
        ∙ rw (enough, fits) refl
  ]
]
  where
    rest : Option ℕ → Option ℕ
    rest none = none
    rest (some lcr) = elim (parity_lcr lcr config.parity) [
      | none ↦ none
      | some lcr' ↦ some (if config.stop_bits == 2 then bit_or lcr' 4 else lcr')
    ]

    by_few : leb 5 config.data_bits ≡ false → data_bits_lcr config.data_bits ≡ none
    by_few few = ground (arith, data_bits_lcr-sub config.data_bits, few)

    by_many :
        leb 5 config.data_bits ≡ true
        → leb config.data_bits 8 ≡ false
        → data_bits_lcr config.data_bits ≡ none
    by_many enough many = ground (arith, data_bits_lcr-sub config.data_bits, enough, many)

    by_fits :
        leb 5 config.data_bits ≡ true
        → leb config.data_bits 8 ≡ true
        → data_bits_lcr config.data_bits ≡ some (config.data_bits - 5)
    by_fits enough fits = ground (arith, data_bits_lcr-sub config.data_bits, enough, fits)
