-- ===== src/Tests/Loading.antt =====
-- A kernel in flash where the makefile puts it.
use qrisc_v.Base.{ℕ, ◌≡◌, refl, ◌++◌, [], inl, add32, arith}
use qrisc_v.Mmio.{Trace, written}
use qrisc_v.Boot.Serial.{ulite_tx}
use qrisc_v.Boot.State.{Machine, ok}
use qrisc_v.Boot.Start.{Flash, main, in_flash, uartlite_base, banner}
use qrisc_v.Boot.Start.Delegation.{booted, texts}
use qrisc_v.Boot.Start.Loading.{IsApart, progress, loaded, main-loaded}
use qrisc_v.Tests.{platform, platform-IsReady, stopped_at}

abbrev flash : Flash
flash = record {
  dtb_dst = 0x82300000;
  dtb_src = 0x88500000;
  dtb_size = 16384;
  kernel_dst = 0x80400000;
  kernel_src = 0x88600000;
  kernel_size = 6500000;
}

flash-IsApart : IsApart flash
flash-IsApart = record {
  dtb_aligned = (refl, refl);
  kernel_aligned = (refl, refl);
  dtb_apart = (omega arith, omega arith, inl (omega arith));
  kernel_apart = (omega arith, omega arith, inl (omega arith));
}

abbrev machine : Machine
machine = stopped_at 0x73 0

main-loaded_example :
    (trace : Trace) × (mem : ℕ → ℕ) × (main platform (in_flash flash) machine
      ≡ ok
          (record { pc = 0x80400000; mode = 1; a0 = 0; a1 = 0x82300000 })
          (booted platform 0x80400000
            (record machine { io = trace; mem = mem; m_uart = uartlite_base })))
    × (written (add32 uartlite_base ulite_tx) trace
        ≡ written (add32 uartlite_base ulite_tx) [] ++ (texts banner ++ texts progress))
    × ((a : ℕ) → mem a ≡ loaded flash machine.mem a)
main-loaded_example =
    main-loaded platform (λ a h. refl) flash flash-IsApart machine (platform-IsReady uartlite_base)
