-- ===== src/Sdk/Examples/Outputs.antt =====
-- gpio.c and spi.c: what they write to their devices.
use qrisc_v.Base.{ℕ, ◌≡◌, some, List, [], ◌∷◌, ◌++◌}
use qrisc_v.Base.{bit_and, if◌then◌else◌, ◌==◌, true, arith}
use qrisc_v.Mmio.{Trace, Answer, overruns, clears}
use qrisc_v.Sdk.{uart_tx, uart_status, gpio_direction, gpio_output, gpio_set_dir, gpio_write}
use qrisc_v.Sdk.{spi_sr}
use qrisc_v.Sdk.Uart.{IsDraining, uart_puts-Sent, uart_puthex-sends}
use qrisc_v.Sdk.Examples.{text, gpio_round, gpio_main}
use qrisc_v.Sdk.Examples.Effect.{Effect, each, Effect-text}
use qrisc_v.Sdk.Journal.{Event, wrote, received, journal}
use qrisc_v.Sdk.Examples.Effect.{Effect-append, Effect-store, for_each-Effect}
use qrisc_v.Sdk.{uart_puts, uart_puthex}

-- The patterns that the rounds of gpio.c show.
abbrev pub pattern : ℕ → ℕ
pattern i = if bit_and i 1 == 0 then 0x5a5a5a5a else 0xa5a5a5a5

abbrev rounds : List ℕ
rounds = 0 ∷ 1 ∷ 2 ∷ 3 ∷ 4 ∷ 5 ∷ 6 ∷ 7 ∷ []

abbrev sent_bytes : List ℕ
sent_bytes = 0xde ∷ 0xad ∷ 0xbe ∷ 0xef ∷ []

module _ (answer : Answer) (fuel : ℕ) (drains : IsDraining answer fuel) where
  puthex-Effect : (v : ℕ) (t : Trace) → Effect [] t (uart_puthex answer fuel v t)
  puthex-Effect v t = Effect-text (uart_puthex-sends answer fuel drains v t).1

  puts-Effect : (s : List ℕ) (t : Trace) → Effect [] t (uart_puts answer fuel s t)
  puts-Effect s t = Effect-text (uart_puts-Sent answer fuel drains s t)

  gpio_round-Effect :
      (i : ℕ) (t : Trace)
      → Effect (wrote gpio_output (pattern i) ∷ []) t (gpio_round answer fuel i t)
  unfolding gpio_round gpio_write
  gpio_round-Effect i t = Effect-store gpio_output (pattern i) (omega arith) (
      Effect-append _ (puts-Effect _ _)
        λ t1. Effect-append _ (puthex-Effect (pattern i) t1) (puts-Effect _))

  gpio_main-Effect :
      (t : Trace)
      → Effect
          (wrote gpio_direction 0xffffffff
            ∷ (each (λ i. wrote gpio_output (pattern i) ∷ []) rounds ++ wrote gpio_output 0 ∷ []))
          t
          (gpio_main answer fuel t)
  unfolding gpio_main gpio_set_dir gpio_write
  gpio_main-Effect t = Effect-append _ (puts-Effect _ t) λ t1.
      Effect-store gpio_direction 0xffffffff (omega arith) (
        Effect-append _ (puts-Effect _ _) λ t2.
          Effect-append _ (for_each-Effect _ (gpio_round answer fuel) rounds t2 gpio_round-Effect)
            λ t3.
              Effect-store gpio_output 0 (omega arith)
                (puts-Effect (text "==== done(gpio_out 已归零)====\n") _))

  -- With a transmit buffer that drains, gpio.c ends after it has made all pins outputs, then put
  -- out its two patterns four times in turn and then 0, and written nothing else to a device, with
  -- no character written while the UART's buffer is full.
  pub gpio_main-written :
      (t : Trace)
      → (t' : Trace) × (gpio_main answer fuel t ≡ some t')
        × (journal t'
            ≡ journal t
              ++ wrote 0x94000000 0xffffffff
                ∷ wrote 0x94000008 0x5a5a5a5a
                ∷ wrote 0x94000008 0xa5a5a5a5
                ∷ wrote 0x94000008 0x5a5a5a5a
                ∷ wrote 0x94000008 0xa5a5a5a5
                ∷ wrote 0x94000008 0x5a5a5a5a
                ∷ wrote 0x94000008 0xa5a5a5a5
                ∷ wrote 0x94000008 0x5a5a5a5a
                ∷ wrote 0x94000008 0xa5a5a5a5
                ∷ wrote 0x94000008 0
                ∷ [])
        × (overruns uart_tx uart_status 3 t' ≡ overruns uart_tx uart_status 3 t)
  gpio_main-written t = let e = gpio_main-Effect t in (e.trace, e.returns, e.events, e.no_overrun)

  -- The SPI's receive register always fills within the fuel.
  abbrev pub IsReceiving : Type 0
  IsReceiving = (t : Trace) → clears answer spi_sr 0 fuel t ≡ true

  -- A transfer of a byte: the slave select (0x70), the data (0x68), and the device released.
  abbrev pub frame : ℕ → List Event
  frame tx =
      wrote 0x93000070 0xfffffffe
      ∷ wrote 0x93000068 tx
      ∷ received true
      ∷ wrote 0x93000070 0xffffffff
      ∷ []
