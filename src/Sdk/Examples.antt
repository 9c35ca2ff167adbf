-- ===== src/Sdk/Examples.antt =====
-- sdk/baremetal/examples: gpio.c, spi.c and hello_uart.c. The sources are UTF-8, so a text is sent
-- as the bytes of its encoding; `delay` makes no access and is left out.
pub mod Effect
pub mod Outputs
pub mod Echo
use qrisc_v.Base.{
  ℕ, zero, suc, ◌+◌, ◌-◌, ◌*◌, ◌/◌, ◌%◌, ◌^◌, Bool, Option, none, some, List, [], ◌∷◌, ◌++◌, ◌≡◌,
}
use Prim.Native.String.{String}
use qrisc_v.Base.{codes, ◌==◌, ltb, if◌then◌else◌, bit_and, u8}
use qrisc_v.Mmio.{Trace, Answer}
use qrisc_v.Sdk.{and_on, uart_putc, uart_puts, uart_puthex, uart_getc_nb, gpio_set_dir, gpio_write}
use qrisc_v.Sdk.{spi_init, spi_xfer, timer_now}

-- The UTF-8 bytes of a text, up to the three that the texts here need.
unfoldable pub utf8 : List ℕ → List ℕ
utf8 [] = []
utf8 (c ∷ s) =
    (if ltb c 0x80
      then c ∷ []
      else (if ltb c 0x800
          then (0xc0 + c / 0x40) ∷ (0x80 + c % 0x40) ∷ []
          else (0xe0 + c / 0x1000) ∷ (0x80 + c / 0x40 % 0x40) ∷ (0x80 + c % 0x40) ∷ []))
    ++ utf8 s

abbrev pub text : String → List ℕ
text s = utf8 (codes s)

-- `for (int i = 0; ...)` with a driver as its body.
unfoldable pub for_each : {A : Type 0} → (A → Trace → Option Trace) → List A → Trace → Option Trace
for_each body [] t = some t
for_each body (x ∷ xs) t = and_on (body x t) (for_each body xs)

module _ (answer : Answer) (fuel : ℕ) where
  -- gpio.c
  unfoldable pub gpio_round : ℕ → Trace → Option Trace
  gpio_round i t =
      let pat = if bit_and i 1 == 0 then 0x5a5a5a5a else 0xa5a5a5a5 in
      and_on (uart_puts answer fuel (text "  gpio_out = ") (gpio_write pat t))
        λ t'. and_on (uart_puthex answer fuel pat t') (uart_puts answer fuel (text "\n"))

  unfoldable pub gpio_main : Trace → Option Trace
  unfolding utf8 for_each gpio_round
  gpio_main t = and_on (uart_puts answer fuel (text "\n==== 裸机 GPIO 演示 ====\n") t) λ t1.
      and_on
        (uart_puts answer fuel (text "GPIO 全设为输出,开始翻转(看波形 gpio_out)...\n")
          (gpio_set_dir 0xffffffff t1))
        λ t2.
          and_on (for_each gpio_round (0 ∷ 1 ∷ 2 ∷ 3 ∷ 4 ∷ 5 ∷ 6 ∷ 7 ∷ []) t2)
            λ t3. uart_puts answer fuel (text "==== done(gpio_out 已归零)====\n") (gpio_write 0 t3)

  -- spi.c
  unfoldable pub report_xfer : ℕ → Option (ℕ × Trace) → Option Trace
  report_xfer tx none = none
  report_xfer tx (some (rx, t)) = and_on (uart_puts answer fuel (text "  发 ") t) λ t1.
      and_on (uart_puthex answer fuel tx t1) λ t2.
        and_on (uart_puts answer fuel (text "  收 ") t2)
          λ t3. and_on (uart_puthex answer fuel rx t3) (uart_puts answer fuel (text "\n"))

  unfoldable pub spi_main : Trace → Option Trace
  unfolding utf8 for_each report_xfer
  spi_main t = and_on (uart_puts answer fuel (text "\n==== 裸机 SPI 演示 ====\n") t) λ t1.
      and_on
        (uart_puts answer fuel (text "SPI 已初始化(主模式)。发送字节(看波形 spi_clk/mosi/cs)...\n") (spi_init t1))
        λ t2.
          and_on
            (for_each (λ tx t'. report_xfer tx (spi_xfer answer fuel tx t'))
              (0xde ∷ 0xad ∷ 0xbe ∷ 0xef ∷ []) t2)
            (uart_puts answer fuel (text "==== done ====\n"))

  -- hello_uart.c: a poll that gave a character, or the polls after it.
  unfoldable pub or_later : Option ℕ × Trace → Option (ℕ × Trace) → Option (ℕ × Trace)
  or_later (none, t) later = later
  or_later (some c, t) later = some (c, t)

  -- `while ((c = uart_getc_nb()) < 0) {}` on fuel.
  unfoldable pub wait_char : ℕ → Trace → Option (ℕ × Trace)
  unfolding or_later
  wait_char zero t = none
  wait_char (suc n) t = let polled = uart_getc_nb answer t in or_later polled (wait_char n polled.1)

  unfoldable pub echo_char : Option (ℕ × Trace) → Option Trace
  echo_char none = none
  echo_char (some (c, t)) =
      and_on (uart_putc answer fuel c t)
        λ t'. if c == b'\r' then uart_putc answer fuel b'\n' t' else some t'

  -- The loop, with `n` characters to go.
  unfoldable pub echo_loop : ℕ → Trace → Option Trace
  unfolding wait_char echo_char
  echo_loop zero t = some t
  echo_loop (suc n) t = and_on (echo_char (wait_char fuel t)) (echo_loop n)

  unfoldable pub hello_main : Trace → Option Trace
  unfolding utf8 echo_loop
  hello_main t =
      and_on (uart_puts answer fuel (text "\n==== biRISC-V 裸机 Hello (no OS) ====\n") t) λ t1.
        and_on (uart_puts answer fuel (text "UART @0x92000000,直接读写寄存器。\n") t1) λ t2.
          and_on (uart_puts answer fuel (text "timer 计数值 = ") t2) λ t3.
            let now = timer_now answer t3 in
            and_on (uart_puthex answer fuel now.0 now.1) λ t4.
              and_on (uart_puts answer fuel (text "\n回显模式:敲什么显什么(GUI 输入框可发)。\n") t4)
                λ t5. and_on (echo_loop 200 t5) (uart_puts answer fuel (text "\n==== done ====\n"))
