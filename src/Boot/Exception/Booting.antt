-- ===== src/Boot/Exception/Booting.antt =====
-- From the reset to the kernel: boot.S clears the static variables, `main` prints, fills the table
-- and sets the registers that the handlers rely on.
use qrisc_v.Base.{ℕ, ◌^◌, ◌<◌, ◌≡◌, refl, Bool, true, false, List, [], ◌∷◌, codes}
use qrisc_v.Base.{Option, none, some, update, bit_and, zero, suc, ◌+◌, ◌/◌, arith, ◌==◌}
use qrisc_v.Base.{inl, add32}
use qrisc_v.Mmio.{Trace}
use qrisc_v.Boot.Csr
use qrisc_v.Boot.Csr.{mscratch, mtvec, medeleg, mideleg, mie, mip}
use qrisc_v.Boot.State.{Platform, Machine, Handler}
use qrisc_v.Boot.State.{invalid_inst, misaligned_ld, misaligned_st}
use qrisc_v.Boot.Serial.{serial_init}
use qrisc_v.Boot.Assert.{assert_fail}
use qrisc_v.Boot.Holds.{lost, Holds, returns, Holds-bind}
use qrisc_v.Boot.Holds.Console.{serial_putstr-Holds, assert_handler-Holds}
use qrisc_v.Boot.Exception.{emulation_init, exception_set_handler, exception_set_irq_handler}
use qrisc_v.Boot.Exception.Serving.{IsServing}
use qrisc_v.Boot.Start.{Config, embedded, in_flash, main, load_kernel, boot_kernel}
use qrisc_v.Boot.Start.{uartlite_base}
use qrisc_v.Boot.Start.{print_all, banner, flash_memcpy, copy_loop, assert}
use qrisc_v.Boot.Start.Copy.{IsBare}
use qrisc_v.Boot.Reset.{start}
use qrisc_v.Boot.Reset.Cleared.{IsLinked, cleared, start_effect}

-- The table once the emulation has entered its handlers.
abbrev emulation_table : ℕ → Option Handler
emulation_table =
    update (update (update (λ _. none) 2 (some invalid_inst)) 4 (some misaligned_ld)) 6
      (some misaligned_st)

module _ (env : Platform) where
  module _ (table : ℕ → Option Handler) where
    abbrev Starts : Machine → Type 0
    Starts m =
        ((c : ℕ) → m.exception_table c ≡ table c)
        × (m.csr mtvec ≡ env.isr_vector)
        × (m.m_uart ≡ uartlite_base)

    io-Starts :
        (m : Machine) (t : Trace)
        → lost (record m { io = t }) ≡ lost m
        → Starts m
        → Starts (record m { io = t })
    io-Starts m t quiet h = h

    print_all-Starts :
        (ss : List (List ℕ)) (m : Machine)
        → Starts m
        → Holds (λ _ m'. Starts m') (print_all env ss m)
    unfolding print_all
    print_all-Starts [] m h = returns h
    print_all-Starts (s ∷ ss) m h =
        Holds-bind _ (serial_putstr-Holds env io-Starts s m h) λ _ m' h'. print_all-Starts ss m' h'

    copy_loop-Starts :
        (words dst src : ℕ) (m : Machine)
        → Starts m
        → Holds (λ _ m'. Starts m') (copy_loop env words dst src m)
    unfolding copy_loop
    copy_loop-Starts zero dst src m h = returns h
    copy_loop-Starts (suc words) dst src m h =
        copy_loop-Starts words (add32 dst 4) (add32 src 4) _ h

    assert-Starts :
        (b : Bool) (reason file : List ℕ) (line : ℕ) (m : Machine)
        → line < 2 ^ 32
        → Starts m
        → Holds (λ _ m'. Starts m') (assert env b reason file line m)
    unfolding assert assert_fail
    assert-Starts true reason file line m small h = returns h
    assert-Starts false reason file line m small h =
        assert_handler-Holds env io-Starts (codes "ASSERT") reason file line m small h

    flash_memcpy-Starts :
        (dst src length : ℕ) (m : Machine)
        → Starts m
        → Holds (λ _ m'. Starts m') (flash_memcpy env dst src length m)
    unfolding flash_memcpy
    flash_memcpy-Starts dst src length m h =
        Holds-bind _ (assert-Starts (bit_and src 3 == 0) _ _ 38 m (omega arith) h) λ _ m1 h1.
          Holds-bind _ (assert-Starts (bit_and dst 3 == 0) _ _ 39 m1 (omega arith) h1)
            λ _ m2 h2. copy_loop-Starts ((length + 3) / 4) dst src m2 h2

  boot_kernel-IsServing :
      (entry dtb : ℕ) (m : Machine)
      → Starts emulation_table m
      → Holds (λ _ m'. IsServing env env.stack_top m') (boot_kernel env entry dtb m)
  unfolding boot_kernel exception_set_handler exception_set_irq_handler Csr.write Csr.read Csr.kept
  boot_kernel-IsServing entry dtb m h = returns (record {
    started = (refl, λ c. ground (arith, h.0 c));
    console = h.2;
    vector = h.1;
    scratch = refl;
    exceptions = refl;
    interrupts = refl;
    tick = inl refl;
  })

  load_kernel-IsServing :
      (config : Config) (m : Machine)
      → Starts emulation_table m
      → Holds (λ _ m'. IsServing env env.stack_top m') (load_kernel env config m)
  unfolding load_kernel
  load_kernel-IsServing (embedded payload dtb) m h = boot_kernel-IsServing payload dtb m h
  load_kernel-IsServing (in_flash c) m h =
      let P = emulation_table in
      Holds-bind _ (serial_putstr-Holds env (io-Starts P) _ m h) λ _ m1 h1.
        Holds-bind _ (flash_memcpy-Starts P c.dtb_dst c.dtb_src c.dtb_size m1 h1) λ _ m2 h2.
          Holds-bind _ (serial_putstr-Holds env (io-Starts P) _ m2 h2) λ _ m3 h3.
            Holds-bind _ (flash_memcpy-Starts P c.kernel_dst c.kernel_src c.kernel_size m3 h3)
              λ _ m4 h4.
                Holds-bind _ (serial_putstr-Holds env (io-Starts P) _ m4 h4)
                  λ _ m5 h5. boot_kernel-IsServing c.kernel_dst c.dtb_dst m5 h5

  -- From the machine that boot.S leaves, with an embedded kernel or one in flash: nothing is
  -- written outside an array, and if `main` enters the kernel, the firmware's invariant holds.
  main-IsServing :
      (config : Config) (mem : ℕ → ℕ) (m : Machine)
      → Holds (λ _ m'. IsServing env env.stack_top m') (main env config (cleared env mem m))
  unfolding main serial_init emulation_init exception_set_handler Csr.write Csr.kept
  main-IsServing config mem m =
      Holds-bind _ (print_all-Starts (λ _. none) banner _ (λ c. refl, refl, refl))
        λ _ m' h'. load_kernel-IsServing config _ (λ c. ground (arith, h'.0 c), h'.1, h'.2)

  -- From the reset on.
  pub start-IsServing :
      IsBare env
      → IsLinked env
      → (config : Config) (m : Machine)
      → Holds (λ _ m'. IsServing env env.stack_top m') (start env config m)
  start-IsServing bare linked config m =
      let begun = start_effect env bare linked config m in
      rw (begun.1) (main-IsServing config begun.0 m)
