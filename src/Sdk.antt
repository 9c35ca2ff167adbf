-- ===== src/Sdk.antt =====
-- sdk/baremetal/bm.h and sdk/soc.h: the drivers for programs without an operating system. A driver
-- turns the accesses made so far into more of them; a wait that outlasts its fuel gives none.
pub mod Journal
pub mod Uart
pub mod Spi
pub mod Examples
pub mod Linux
pub mod Startup
use qrisc_v.Base.{ℕ, zero, suc, ◌+◌, ◌-◌, ◌*◌, ◌^◌, Bool, Option, none, some, List, [], ◌∷◌, codes}
use qrisc_v.Base.{◌==◌, ltb, not, if◌then◌else◌, bit_and, bit_or, u8, u32, ◌>>>◌}
use qrisc_v.Mmio.{Trace, Answer, store, after_read}

abbrev pub timer_base : ℕ
timer_base = 0x91000000

abbrev pub uart_base : ℕ
uart_base = 0x92000000

abbrev pub spi_base : ℕ
spi_base = 0x93000000

abbrev pub gpio_base : ℕ
gpio_base = 0x94000000

abbrev pub timer_value : ℕ
timer_value = timer_base + 0x00

abbrev pub uart_rx : ℕ
uart_rx = uart_base + 0x00

abbrev pub uart_tx : ℕ
uart_tx = uart_base + 0x04

abbrev pub uart_status : ℕ
uart_status = uart_base + 0x08

abbrev pub spi_srr : ℕ
spi_srr = spi_base + 0x40

abbrev pub spi_cr : ℕ
spi_cr = spi_base + 0x60

abbrev pub spi_sr : ℕ
spi_sr = spi_base + 0x64

abbrev pub spi_dtr : ℕ
spi_dtr = spi_base + 0x68

abbrev pub spi_drr : ℕ
spi_drr = spi_base + 0x6c

abbrev pub spi_ssr : ℕ
spi_ssr = spi_base + 0x70

abbrev pub gpio_direction : ℕ
gpio_direction = gpio_base + 0x00

abbrev pub gpio_input : ℕ
gpio_input = gpio_base + 0x04

abbrev pub gpio_output : ℕ
gpio_output = gpio_base + 0x08

abbrev pub uart_st_rxvalid : ℕ
uart_st_rxvalid = 2 ^ 0

abbrev pub spi_cr_enable : ℕ
spi_cr_enable = 2 ^ 1

abbrev pub spi_cr_master : ℕ
spi_cr_master = 2 ^ 2

abbrev pub spi_cr_txrst : ℕ
spi_cr_txrst = 2 ^ 5

abbrev pub spi_cr_rxrst : ℕ
spi_cr_rxrst = 2 ^ 6

-- One driver after another.
abbrev pub and_on : Option Trace → (Trace → Option Trace) → Option Trace
and_on none next = none
and_on (some t) next = next t

-- The character of a digit below 16.
unfoldable pub nib_char : ℕ → ℕ
nib_char nib = if ltb nib 10 then b'0' + nib else b'a' + nib - 10

module _ (answer : Answer) where
  -- `while (REG32(...) & flag) {}`
  unfoldable pub wait_clear : ℕ → ℕ → ℕ → Trace → Option Trace
  wait_clear status flag zero t = none
  wait_clear status flag (suc n) t =
      let rest = wait_clear status flag n (after_read answer status t) in
      if bit_and (u32 (answer t status)) (2 ^ flag) == 0
      then some (after_read answer status t)
      else rest

  unfoldable pub uart_putc : ℕ → ℕ → Trace → Option Trace
  unfolding wait_clear
  uart_putc fuel c t =
      and_on (wait_clear uart_status 3 fuel t) λ t'. some (store uart_tx (u8 c) ∷ t')

  unfoldable pub uart_puts : ℕ → List ℕ → Trace → Option Trace
  unfolding uart_putc
  uart_puts fuel [] t = some t
  uart_puts fuel (c ∷ s) t =
      let rest = λ (t' : Trace). and_on (uart_putc fuel c t') (uart_puts fuel s) in
      if c == 0
      then some t
      else (if c == b'\n' then and_on (uart_putc fuel b'\r' t) rest else rest t)

  -- The character, or none for the -1.
  unfoldable pub uart_getc_nb : Trace → Option ℕ × Trace
  uart_getc_nb t =
      let seen = after_read answer uart_status t in
      if not (bit_and (u32 (answer t uart_status)) uart_st_rxvalid == 0)
      then (some (bit_and (u32 (answer seen uart_rx)) 0xff), after_read answer uart_rx seen)
      else (none, seen)

  -- The loop over `i`, which is four times the digits that follow.
  unfoldable pub put_nibs : ℕ → ℕ → ℕ → Trace → Option Trace
  unfolding uart_putc nib_char
  put_nibs fuel zero v t = some t
  put_nibs fuel (suc n) v t =
      and_on (uart_putc fuel (nib_char (bit_and (v >>> (4 * n)) 0xf)) t) (put_nibs fuel n v)

  unfoldable pub uart_puthex : ℕ → ℕ → Trace → Option Trace
  unfolding put_nibs uart_puts
  uart_puthex fuel v t = and_on (uart_puts fuel (codes "0x") t) (put_nibs fuel 8 v)

  -- The byte that came back, and the device deselected.
  unfoldable pub finish_xfer : Option Trace → Option (ℕ × Trace)
  finish_xfer none = none
  finish_xfer (some t) = some (
    bit_and (u32 (answer t spi_drr)) 0xff,
    store spi_ssr 0xffffffff ∷ after_read answer spi_drr t,
  )

  unfoldable pub spi_xfer : ℕ → ℕ → Trace → Option (ℕ × Trace)
  unfolding wait_clear finish_xfer
  spi_xfer fuel tx t =
      finish_xfer (wait_clear spi_sr 0 fuel (store spi_dtr tx ∷ store spi_ssr 0xfffffffe ∷ t))

  unfoldable pub gpio_read : Trace → ℕ × Trace
  gpio_read t = (u32 (answer t gpio_input), after_read answer gpio_input t)

  unfoldable pub timer_now : Trace → ℕ × Trace
  timer_now t = (u32 (answer t timer_value), after_read answer timer_value t)

unfoldable pub gpio_set_dir : ℕ → Trace → Trace
gpio_set_dir mask t = store gpio_direction mask ∷ t

unfoldable pub gpio_write : ℕ → Trace → Trace
gpio_write val t = store gpio_output val ∷ t

-- Enable, master mode, and the reset of both buffers.
unfoldable pub spi_init : Trace → Trace
spi_init t =
    let reset = store spi_ssr 0xffffffff ∷ store spi_srr 0x0000000a ∷ t in
    store spi_cr (bit_or (bit_or (bit_or spi_cr_enable spi_cr_master) spi_cr_txrst) spi_cr_rxrst)
    ∷ reset
