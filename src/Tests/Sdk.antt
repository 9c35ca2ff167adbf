-- ===== src/Tests/Sdk.antt =====
-- Examples of the SDK's drivers.
use qrisc_v.Base.{ℕ, ◌≡◌, refl, true, some, List, [], ◌∷◌, ◌++◌, codes, length, arith}
use qrisc_v.Mmio.{Trace, Answer, clears, store}
use qrisc_v.Boot.Serial.Hex.{hex_value_from, IsHexDigit}
use qrisc_v.Base.{All}
use qrisc_v.Sdk.{uart_puts, uart_puthex, spi_sr, spi_dtr, spi_ssr}
use qrisc_v.Sdk.Uart.{IsDraining, Sent, with_returns, uart_puts-Sent, uart_puthex-Sent}
use qrisc_v.Sdk.{gpio_base}
use qrisc_v.Sdk.Examples.{echo_loop}
use qrisc_v.Sdk.Examples.Echo.{arrives, Echoed, echo_loop-Echoed}
use qrisc_v.Base.{none}
use qrisc_v.Sdk.Linux.{Os, Process, mmio_map, gpio_mmap_main}
use qrisc_v.Sdk.Linux.Gpio.{ProgramEnds, gpio_mmap_main-Ends}
use qrisc_v.Boot.Reset.Cleared.{zeroed}
use qrisc_v.Sdk.Startup.{Symbols, Hart, crt0_start, crt0_start_effect}

-- Every register reads 0.
abbrev idle : Answer
idle t a = 0

drains : IsDraining idle 1
unfolding clears
drains t = refl

received : clears idle spi_sr 0 1 (store spi_dtr 0xde ∷ store spi_ssr 0xfffffffe ∷ []) ≡ true
unfolding clears
received = refl

uart_puts-Sent_example :
    Sent
      (with_returns (b'O' ∷ b'K' ∷ b'\n' ∷ 0 ∷ []))
      []
      (uart_puts idle 1 (b'O' ∷ b'K' ∷ b'\n' ∷ 0 ∷ []) [])
uart_puts-Sent_example = uart_puts-Sent idle 1 drains (b'O' ∷ b'K' ∷ b'\n' ∷ 0 ∷ []) []

uart_puthex-Sent_example :
    (digits : List ℕ) × (length digits ≡ 8)
    × All IsHexDigit digits
    × (hex_value_from 0 digits ≡ 0xbeef)
    × Sent (codes "0x" ++ digits) [] (uart_puthex idle 1 0xbeef [])
uart_puthex-Sent_example = uart_puthex-Sent idle 1 drains 0xbeef [] (omega arith)

-- Every register reads 1: the UART always has a character, and room for one.
abbrev chatting : Answer
chatting t a = 1

chatting-IsDraining : IsDraining chatting 1
unfolding clears
chatting-IsDraining t = refl

chatting-arrives : (t : Trace) → arrives chatting 1 t ≡ true
unfolding arrives
chatting-arrives t = refl

echo_loop-Echoed_example : Echoed 200 [] (echo_loop chatting 1 200 [])
echo_loop-Echoed_example = echo_loop-Echoed chatting 1 chatting-IsDraining chatting-arrives 200 []

-- The page is mapped at 0x1000.
abbrev linux : Os
linux = record { open_mem = λ calls. some 3; mmap_page = λ calls fd base. some 0x1000 }

abbrev process : Process
process = record { fd = none; calls = [] }

gpio_mmap_main-Ends_example : ProgramEnds linux process process.fd (gpio_mmap_main linux process)
gpio_mmap_main-Ends_example = gpio_mmap_main-Ends linux process

-- It is mapped, so that the device is driven.
mapped_example : (mmio_map linux gpio_base process).0 ≡ 0x1000
unfolding mmio_map
mapped_example = refl

-- A section of ten bytes, on a hart in any state.
abbrev symbols : Symbols
symbols = record { stack_top = 0x81fffff0; bss_start = 0x80001000; bss_end = 0x8000100a }

abbrev at_reset : Hart
at_reset = record { mie = 0xaaa; sp = 7; a0 = 1; a1 = 2; mem = λ a. 0xff }

crt0_start_effect_example :
    (mem : ℕ → ℕ) × (crt0_start symbols at_reset
      ≡ some (record { mie = 0; sp = 0x81fffff0; a0 = 0; a1 = 0; mem = mem }))
    × ((a : ℕ) → mem a ≡ zeroed 0x80001000 0x8000100c at_reset.mem a)
crt0_start_effect_example = crt0_start_effect symbols at_reset refl (omega arith) (omega arith)
