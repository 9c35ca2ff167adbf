-- ===== src/Sdk/Linux.antt =====
-- sdk/linux/mmio.h and sdk/linux/examples/gpio_mmap.c: a device's registers mapped into a process.
-- The system calls are the record `Os`: what a call gives is a function of the calls made before
-- it. Texts are the bytes of their UTF-8 encoding, and a number printed stands beside its format.
pub mod Gpio
pub mod Hello
use qrisc_v.Base.{ℕ, zero, suc, ◌+◌, ◌%◌, ◌^◌, Option, none, some, List, [], ◌∷◌, ◌++◌}
use qrisc_v.Base.{◌==◌, if◌then◌else◌, bit_and}
use qrisc_v.Sdk.{gpio_base}
use qrisc_v.Sdk.Examples.{utf8, text}

pub data Call : Type 0 where
  opened : Call
  -- The page of a physical address.
  mapped : ℕ → Call
  -- `perror` and `printf`; the second with its number.
  complained : List ℕ → Call
  printed : List ℕ → Call
  printed_number : List ℕ → ℕ → Call
  slept : ℕ → Call
  -- A write to a register of a mapped device.
  wrote : ℕ → ℕ → Call

pub record Os : Type 0 where
  -- The descriptor of /dev/mem, none if it cannot be opened.
  pub open_mem : List Call → Option ℕ
  -- Where the page is mapped, none for MAP_FAILED.
  pub mmap_page : List Call → ℕ → ℕ → Option ℕ

-- The static descriptor (none while it is negative), and the calls, the latest first.
pub record Process : Type 0 where
  pub fd : Option ℕ
  pub calls : List Call

abbrev pub calling : Call → Process → Process
calling c s = record s { calls = c ∷ s.calls }

module _ (os : Os) where
  -- The pointer, 0 for NULL.
  unfoldable pub mapped_at : Option ℕ → Process → ℕ × Process
  unfolding utf8
  mapped_at none s = (0, calling (complained (text "mmap")) s)
  mapped_at (some p) s = (p, s)

  unfoldable pub map_page : ℕ → ℕ → Process → ℕ × Process
  unfolding mapped_at
  map_page fd phys_base s =
      mapped_at (os.mmap_page s.calls fd phys_base) (calling (mapped phys_base) s)

  unfoldable pub opened_as : Option ℕ → ℕ → Process → ℕ × Process
  unfolding map_page utf8
  opened_as none phys_base s =
      (0, calling (complained (text "open /dev/mem(需 root + CONFIG_DEVMEM + /dev/mem 节点)")) s)
  opened_as (some fd) phys_base s = map_page fd phys_base (record s { fd = some fd })

  unfoldable pub map_with : Option ℕ → ℕ → Process → ℕ × Process
  unfolding opened_as map_page
  map_with none phys_base s = opened_as (os.open_mem s.calls) phys_base (calling opened s)
  map_with (some fd) phys_base s = map_page fd phys_base s

  unfoldable pub mmio_map : ℕ → Process → ℕ × Process
  unfolding map_with
  mmio_map phys_base s = map_with s.fd phys_base s

-- One round of the loop.
unfoldable pub gpio_toggle : ℕ → ℕ → Process → Process
unfolding utf8
gpio_toggle gpio i s =
    let pat = if bit_and i 1 == 0 then 0x0000babe else 0xcafe0000 in
    calling (slept 1000) (
      calling (printed_number (text "  gpio_out = 0x%08x\n") pat)
        (calling (wrote (gpio + 8) pat) s))

unfoldable pub toggle_all : ℕ → List ℕ → Process → Process
toggle_all gpio [] s = s
toggle_all gpio (i ∷ is) s = toggle_all gpio is (gpio_toggle gpio i s)

-- What follows once the device is mapped.
unfoldable pub drive_gpio : ℕ × Process → ℕ × Process
unfolding toggle_all gpio_toggle utf8
drive_gpio (zero, s) = (1, s)
drive_gpio (suc p, s) =
    let gpio = suc p in
    let told =
      calling (printed_number (text "GPIO @0x%08x 已 mmap。设为输出并翻转(看波形 gpio_out):\n") gpio_base) s in
    let ready = calling (wrote (gpio + 0) 0xffffffff) told in
    let toggled = toggle_all gpio (0 ∷ 1 ∷ 2 ∷ 3 ∷ 4 ∷ 5 ∷ []) ready in
    (0, calling (printed (text "done(gpio_out 归零)。\n")) (calling (wrote (gpio + 8) 0) toggled))

unfoldable pub gpio_mmap_main : Os → Process → ℕ × Process
unfolding drive_gpio
gpio_mmap_main os s = drive_gpio (mmio_map os gpio_base s)
