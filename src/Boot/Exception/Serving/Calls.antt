-- ===== src/Boot/Exception/Serving/Calls.antt =====
-- The calls and the tick keep the invariant.
use qrisc_v.Base.{ℕ, inl, inr, List, ◌==◌, ◌||◌}
use qrisc_v.Base.{Bool-cases, arith}
use qrisc_v.Boot.Csr
use qrisc_v.Boot.Csr.{mscratch, CsrFile, mtvec, medeleg, mideleg, mie, mip}
use qrisc_v.Boot.State.{Platform, IrqContext, Machine}
use qrisc_v.Boot.Holds.{Holds, returns, exits, Holds-bind}
use qrisc_v.Boot.Holds.Console.{serial_putstr-Holds, serial_putchar-Holds}
use qrisc_v.Boot.Holds.Console.{serial_haschar-Holds, serial_getchar-Holds}
use qrisc_v.Boot.Holds.Emulated.{HasWords, set_reg-HasWords}
use qrisc_v.Boot.Serial.{minus_one}
use qrisc_v.Boot.Sbi.{set_timer, store_char, console_getchar, console_putchar, stop, sbi_syscall}
use qrisc_v.Boot.Sbi.{reg_arg0}
use qrisc_v.Base.{◌∙◌, bit-lt}
use qrisc_v.Boot.Csr.{sip, mtimecmp, sr_ip_stip}
use qrisc_v.Boot.Sbi.Timer.{tick_raised, set_mtie, clear_mtie}
use qrisc_v.Boot.Syscalls.{handle_syscall}
use qrisc_v.Boot.Irq.{raise_timer}
use qrisc_v.Boot.Exception.Serving.{IsCalm, Serves, io-IsCalm}

module _ (env : Platform) (sp : ℕ) (o : Machine) where
  module _ (ctx : IrqContext) (words : HasWords ctx) where
    set_timer-Serves :
        (a0 : ℕ) (m : Machine) → IsCalm env sp o m → Holds (Serves env sp o) (set_timer ctx a0 m)
    unfolding set_timer Csr.set_bits Csr.clear_bits Csr.write Csr.read Csr.kept
    set_timer-Serves a0 m h = returns (
      words,
      (
        record {
          started = h.0.started;
          console = h.0.console;
          vector = h.0.vector;
          scratch = h.0.scratch;
          exceptions = h.0.exceptions;
          interrupts = h.0.interrupts;
          tick = inl (set_mtie (Csr.write m.csr mtimecmp a0) 7 (omega arith));
        },
        h.1,
        λ j hj ne has.
            set_mtie (Csr.write m.csr mtimecmp a0) j hj
            ∙ (ground (arith, ne, has, bit-lt j (m.csr mie)))
            ∙ h.2 j hj ne has,
      ),
    )

    pub raise_timer-Serves :
        (m : Machine) → IsCalm env sp o m → Holds (Serves env sp o) (raise_timer ctx m)
    unfolding raise_timer Csr.set_bits Csr.clear_bits Csr.write Csr.read Csr.kept
    raise_timer-Serves m h = returns (
      words,
      (
        record {
          started = h.0.started;
          console = h.0.console;
          vector = h.0.vector;
          scratch = h.0.scratch;
          exceptions = h.0.exceptions;
          interrupts = h.0.interrupts;
          tick =
              inr
                (clear_mtie (Csr.set_bits m.csr sip sr_ip_stip) 7 (omega arith), tick_raised m.csr);
        },
        h.1,
        λ j hj ne has.
            clear_mtie (Csr.set_bits m.csr sip sr_ip_stip) j hj
            ∙ (ground (arith, ne, has, bit-lt j (m.csr mie)))
            ∙ h.2 j hj ne has,
      ),
    )

    putchar-Serves :
        (c : ℕ) (m : Machine)
        → IsCalm env sp o m
        → Holds (Serves env sp o) (console_putchar env ctx c m)
    unfolding console_putchar
    putchar-Serves c m h =
        Holds-bind _ (serial_putchar-Holds env (io-IsCalm env sp o) _ m h)
          λ _ _ h'. returns (words, h')

    stop-Serves :
        (s : List ℕ) (code : ℕ) (m : Machine)
        → IsCalm env sp o m
        → Holds (Serves env sp o) (stop env s code m)
    unfolding stop
    stop-Serves s code m h =
        Holds-bind _ (serial_putstr-Holds env (io-IsCalm env sp o) s m h) λ _ _ _. exits

    store_char-Serves :
        (m : Machine) → IsCalm env sp o m → Holds (Serves env sp o) (store_char env ctx m)
    unfolding store_char
    store_char-Serves m h =
        Holds-bind _ (serial_getchar-Holds env (io-IsCalm env sp o) m h)
          λ c _ h'. returns (set_reg-HasWords ctx reg_arg0 c words h'.0, h'.1)

    getchar-Serves :
        (m : Machine) → IsCalm env sp o m → Holds (Serves env sp o) (console_getchar env ctx m)
    unfolding console_getchar
    getchar-Serves m h =
        Holds-bind _ (serial_haschar-Holds env (io-IsCalm env sp o) m h) λ has m' h'.
          elim (Bool-cases has) [
            | inl there ↦ rw there (store_char-Serves m' h')
            | inr empty ↦
                rw empty (returns (set_reg-HasWords ctx reg_arg0 minus_one words (omega arith), h'))
          ]

    pub sbi_syscall-Serves :
        (m : Machine) → IsCalm env sp o m → Holds (Serves env sp o) (sbi_syscall env ctx m)
    unfolding sbi_syscall
    sbi_syscall-Serves m h =
        let which = ctx.reg 17 in
        elim (Bool-cases (which == 8)) [
          | inl down ↦ rw down (stop-Serves _ _ m h)
          | inr up ↦ elim (Bool-cases (which == 1)) [
            | inl put ↦ rw (up, put) (putchar-Serves (ctx.reg 10) m h)
            | inr no_put ↦ elim (Bool-cases (which == 2)) [
              | inl get ↦ rw (up, no_put, get) (getchar-Serves m h)
              | inr no_get ↦ elim (Bool-cases (which == 0)) [
                | inl set ↦ rw (up, no_put, no_get, set) (set_timer-Serves (ctx.reg 10) m h)
                | inr no_set ↦ elim (Bool-cases ((which == 5) || (which == 6))) [
                  | inl fence ↦ rw (up, no_put, no_get, no_set, fence) (returns (words, h))
                  | inr other ↦ rw (up, no_put, no_get, no_set, other) (stop-Serves _ _ m h)
                ]
              ]
            ]
          ]
        ]

    pub handle_syscall-Serves :
        (m : Machine) → IsCalm env sp o m → Holds (Serves env sp o) (handle_syscall env ctx m)
    unfolding handle_syscall
    handle_syscall-Serves m h =
        let which = ctx.reg 17 in
        elim (Bool-cases (which == 8)) [
          | inl down ↦ rw down (stop-Serves _ _ m h)
          | inr up ↦ elim (Bool-cases (which == 1)) [
            | inl put ↦ rw (up, put) (putchar-Serves (ctx.reg 10) m h)
            | inr no_put ↦ elim (Bool-cases (which == 2)) [
              | inl get ↦ rw (up, no_put, get) (getchar-Serves m h)
              | inr other ↦ rw (up, no_put, other) (stop-Serves _ _ m h)
            ]
          ]
        ]
