-- ===== src/Boot/Serial.antt =====
-- bootloader/serial.c: the polled console on the UART. A text is the list of its bytes before the
-- terminating zero, and a null pointer is the empty text.
pub mod Output
pub mod Hex
use qrisc_v.Base.{ℕ, zero, suc, ◌+◌, ◌/◌, ◌%◌, ◌^◌, Bool, true, false, Option, none, some}
use qrisc_v.Base.{List, [], ◌∷◌, ◌==◌, ltb, not, if◌then◌else◌, bit_and, u8, add32, get_or, codes}
use qrisc_v.Boot.State.{Platform, M, stalled, undefined, gets, modify, pure}
use qrisc_v.Boot.State.{◌>>=◌, ◌>>◌, and_then, mmio_read, mmio_write}

-- Offsets of the registers, and the bits that the code tests or sets.
abbrev pub ulite_rx : ℕ
ulite_rx = 0x0

abbrev pub ulite_tx : ℕ
ulite_tx = 0x4

abbrev pub ulite_status : ℕ
ulite_status = 0x8

abbrev pub ulite_control : ℕ
ulite_control = 0xc

abbrev pub ulite_status_txfull_shift : ℕ
ulite_status_txfull_shift = 3

abbrev pub ulite_status_rxvalid_shift : ℕ
ulite_status_rxvalid_shift = 0

abbrev pub ulite_control_ie_shift : ℕ
ulite_control_ie_shift = 4

abbrev pub ulite_control_rst_rx_shift : ℕ
ulite_control_rst_rx_shift = 1

abbrev pub ulite_control_rst_tx_shift : ℕ
ulite_control_rst_tx_shift = 0

-- The address of the register at an offset: `&m_uart[offset / 4]`.
abbrev pub uart : ℕ → M ℕ
uart offset = gets (λ m. add32 m.m_uart offset)

-- -1 as an `int` that is stored into a `uint32_t`.
abbrev pub minus_one : ℕ
minus_one = 0xffffffff

abbrev hex_digits : List ℕ
hex_digits = codes "0123456789abcdef"

unfoldable pub hex_digit : ℕ → ℕ
hex_digit d = get_or hex_digits d 0

-- The `do` loop that writes digits in front of those in the buffer, with `room` bytes left.
pub hex_loop : ℕ → ℕ → List ℕ → Option (List ℕ)
hex_loop zero num out = none
hex_loop (suc room) num out =
    let out' = hex_digit (num % 16) ∷ out in
    let rest = hex_loop room (num / 16) out' in if ltb 0 (num / 16) then rest else some out'

module _ (env : Platform) where
  unfoldable pub serial_init : ℕ → ℕ → M (Unit {0})
  serial_init base_addr baud_rate = do
    modify (λ m. record m { m_uart = base_addr })
    let cfg =
        2 ^ ulite_control_rst_rx_shift + 2 ^ ulite_control_rst_tx_shift + 2 ^ ulite_control_ie_shift
    a ← uart ulite_control
    mmio_write env a cfg

  -- `while (status & TXFULL);`
  unfoldable pub wait_tx : ℕ → M (Unit {0})
  wait_tx zero = stalled
  wait_tx (suc n) = do
    a ← uart ulite_status
    status ← mmio_read env a
    let again = wait_tx n
    if bit_and status (2 ^ ulite_status_txfull_shift) == 0 then pure tt else again

  unfoldable pub serial_putchar : ℕ → M ℕ
  serial_putchar c = do wait_tx env.poll_fuel; a ← uart ulite_tx; mmio_write env a c; pure 0

  unfoldable pub serial_putstr : List ℕ → M (Unit {0})
  serial_putstr [] = pure tt
  serial_putstr (c ∷ s) = if c == 0 then pure tt else (serial_putchar c >> serial_putstr s)

  unfoldable pub serial_haschar : M Bool
  serial_haschar = do
    a ← uart ulite_status
    status ← mmio_read env a
    pure (not (bit_and status (2 ^ ulite_status_rxvalid_shift) == 0))

  unfoldable pub read_rx : M ℕ
  read_rx = do a ← uart ulite_rx; c ← mmio_read env a; pure (u8 c)

  unfoldable pub serial_getchar : M ℕ
  unfolding serial_haschar read_rx
  serial_getchar = do has ← serial_haschar; if has then read_rx else pure minus_one

  -- `while (*num_str)`, where the digits fit the buffer.
  unfoldable pub print_digits : Option (List ℕ) → M (Unit {0})
  unfolding serial_putstr
  print_digits none = undefined
  print_digits (some text) = serial_putstr text

  -- `outbuf` has 32 bytes: the zero, the newline, and 30 before them.
  unfoldable pub serial_putstr_hex : List ℕ → ℕ → M (Unit {0})
  serial_putstr_hex str num = do serial_putstr str; print_digits (hex_loop 30 num (b'\n' ∷ []))
