-- ===== src/Boot/Start/Loading.antt =====
-- A kernel in flash: the start copies the device tree and the kernel, says so, and enters the copy.
use qrisc_v.Base.{rounded, ℕ, ◌%◌, ◌≡◌, refl, ◌∙◌, ap, fun_ext}
use qrisc_v.Base.{List, [], ◌∷◌, ◌++◌, append_assoc, append-nil, update, some, add32, codes}
use qrisc_v.Mmio.{Trace, written, store}
use qrisc_v.Boot.Csr
use qrisc_v.Boot.State.{Platform, Machine, ok, invalid_inst, misaligned_ld, misaligned_st}
use qrisc_v.Boot.Serial.{serial_init, ulite_control, ulite_tx}
use qrisc_v.Boot.Serial.Output.{IsReady, until_zero, serial_putstr-Printed}
use qrisc_v.Boot.Exception.{exception_set_handler, exception_set_irq_handler, emulation_init}
use qrisc_v.Boot.Start.{Flash, Entry, in_flash, uartlite_base, banner}
use qrisc_v.Boot.Start.{boot_kernel, load_kernel, main}
use qrisc_v.Boot.Start.Copy.{IsBare, IsDisjoint, copied, flash_memcpy-CopyEnd}
use qrisc_v.Boot.Start.Delegation.{booted, texts, print_all-Printed}

-- Word-aligned regions, each apart from the one it is copied from.
pub record IsApart (c : Flash) : Type 0 where
  pub dtb_aligned : (c.dtb_dst % 4 ≡ 0) × (c.dtb_src % 4 ≡ 0)
  pub kernel_aligned : (c.kernel_dst % 4 ≡ 0) × (c.kernel_src % 4 ≡ 0)
  pub dtb_apart : IsDisjoint (rounded c.dtb_size) c.dtb_dst c.dtb_src
  pub kernel_apart : IsDisjoint (rounded c.kernel_size) c.kernel_dst c.kernel_src

-- What is said of the copies.
unfoldable pub progress : List (List ℕ)
progress =
    codes "Copying DTB from FLASH to RAM...\n"
    ∷ codes "Copying KERNEL from FLASH to RAM...\n"
    ∷ codes "Booting...\n"
    ∷ []

-- Memory with the device tree's copy, then the kernel's.
abbrev pub loaded : Flash → (ℕ → ℕ) → ℕ → ℕ
loaded c mem =
    copied (rounded c.kernel_size) c.kernel_dst c.kernel_src
      (copied (rounded c.dtb_size) c.dtb_dst c.dtb_src mem)

three_sent :
    (t0 a b d : List ℕ) {t1 t2 t3 : List ℕ}
    → t1 ≡ t0 ++ a
    → t2 ≡ t1 ++ b
    → t3 ≡ t2 ++ d
    → t3 ≡ t0 ++ (a ++ (b ++ (d ++ [])))
three_sent t0 a b d e1 e2 e3 =
    rw (append-nil d, e3, e2, e1) (append_assoc (t0 ++ a) b d ∙ append_assoc t0 a (b ++ d))

module _ (env : Platform) (bare : IsBare env) (c : Flash) (apart : IsApart c) where
  abbrev sent_by : ℕ → Trace → List ℕ
  sent_by base t = written (add32 base ulite_tx) t

  abbrev entered : Entry
  entered = record { pc = c.kernel_dst; mode = 1; a0 = 0; a1 = c.dtb_dst }

  abbrev emulated : Machine → Machine
  emulated m = record m {
    exception_table =
        update (update (update m.exception_table 2 (some invalid_inst)) 4 (some misaligned_ld)) 6
          (some misaligned_st);
  }

  emulation_init-emulated : (m : Machine) → emulation_init m ≡ ok tt (emulated m)
  unfolding emulation_init exception_set_handler
  emulation_init-emulated m = refl

  emulated-booted :
      (m : Machine)
      → boot_kernel env c.kernel_dst c.dtb_dst (emulated m) ≡ ok entered (booted env c.kernel_dst m)
  unfolding boot_kernel exception_set_handler exception_set_irq_handler Csr.write Csr.read Csr.kept
  emulated-booted m = refl

  -- From the full table on.
  load_kernel-loaded :
      (m : Machine)
      → IsReady env m.m_uart
      → (trace : Trace) × (mem : ℕ → ℕ) × (load_kernel env (in_flash c) m
          ≡ boot_kernel env c.kernel_dst c.dtb_dst (record m { io = trace; mem = mem }))
        × (sent_by m.m_uart trace ≡ sent_by m.m_uart m.io ++ texts progress)
        × ((a : ℕ) → mem a ≡ loaded c m.mem a)
  unfolding load_kernel progress texts
  load_kernel-loaded m ready =
      let s1 = serial_putstr-Printed env (codes "Copying DTB from FLASH to RAM...\n") m ready in
      let m1 = record m { io = s1.trace } in
      let c1 =
        flash_memcpy-CopyEnd env bare c.dtb_dst c.dtb_src c.dtb_size m1 apart.dtb_aligned.0
          apart.dtb_aligned.1 apart.dtb_apart in
      let m2 = record m1 { mem = c1.0 } in
      let s2 = serial_putstr-Printed env (codes "Copying KERNEL from FLASH to RAM...\n") m2 ready in
      let m3 = record m2 { io = s2.trace } in
      let c2 =
        flash_memcpy-CopyEnd env bare c.kernel_dst c.kernel_src c.kernel_size m3
          apart.kernel_aligned.0 apart.kernel_aligned.1 apart.kernel_apart in
      let m4 = record m3 { mem = c2.0 } in
      let s3 = serial_putstr-Printed env (codes "Booting...\n") m4 ready in
      (
        s3.trace,
        c2.0,
        rw (s1.returns, c1.1, s2.returns, c2.1, s3.returns),
        three_sent (sent_by m.m_uart m.io) (until_zero (codes "Copying DTB from FLASH to RAM...\n"))
            (until_zero (codes "Copying KERNEL from FLASH to RAM...\n"))
            (until_zero (codes "Booting...\n")) s1.sent s2.sent s3.sent,
        λ a.
            c2.2 a
            ∙ ap (λ (f : ℕ → ℕ). copied (rounded c.kernel_size) c.kernel_dst c.kernel_src f a)
                (fun_ext c1.2),
      )

  -- Where a UART is ready, addresses are physical in machine mode, and with word-aligned regions
  -- that do not overlap the one they are copied from: the start of a kernel in flash prints the
  -- banner and its progress, copies the device tree and then the kernel, each rounded up to words,
  -- changes no other byte, and enters the copy in supervisor mode with 0 and the tree's copy.
  pub main-loaded :
      (m : Machine)
      → IsReady env uartlite_base
      → (trace : Trace) × (mem : ℕ → ℕ) × (main env (in_flash c) m
          ≡ ok entered (
              booted env c.kernel_dst (record m { io = trace; mem = mem; m_uart = uartlite_base })))
        × (sent_by uartlite_base trace
            ≡ sent_by uartlite_base m.io ++ (texts banner ++ texts progress))
        × ((a : ℕ) → mem a ≡ loaded c m.mem a)
  unfolding main serial_init written
  main-loaded m ready =
      let after_init : Machine = record m {
        io = store (add32 uartlite_base ulite_control) 0x13 ∷ m.io;
        m_uart = uartlite_base;
      } in
      let printed = print_all-Printed env banner after_init ready in
      let spoken : Machine = record after_init { io = printed.trace } in
      let last = load_kernel-loaded (emulated spoken) ready in
      (
        last.0,
        last.1,
        rw (printed.returns, emulation_init-emulated spoken, last.2)
            (emulated-booted (record spoken { io = last.0; mem = last.1 })),
        last.3
            ∙ ap (λ (l : List ℕ). l ++ texts progress) printed.sent
            ∙ append_assoc (sent_by uartlite_base m.io) (texts banner) (texts progress),
        last.4,
      )
