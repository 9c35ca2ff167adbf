-- ===== src/Boot/Sbi/Calls.antt =====
-- What each of the kernel's calls does, by its number.
use qrisc_v.Base.{◌⊎◌}
use qrisc_v.Base.{inl, inr}
use qrisc_v.Base.{ℕ, ◌^◌, ◌≡◌, Bool, false}
use qrisc_v.Base.{◌==◌, not, Bool-cases, if◌then◌else◌, bit, bit_and, u8, u32, add32, arith}
use qrisc_v.Base.{List, [], ◌∷◌, codes}
use qrisc_v.Base.Fields.{bit_and-one_bit}
use qrisc_v.Base.{◌<◌, ◌≢◌, refl, min}
use qrisc_v.Boot.Csr
use qrisc_v.Boot.Csr.{mtimecmp, mie, mip, sr_ip_mtip}
use qrisc_v.Boot.Sbi.Timer.{set_mtie, clear_stip}
use qrisc_v.Mmio.{Trace, after_read}
use qrisc_v.Boot.State.{Platform, IrqContext, Machine, Run, ok}
use qrisc_v.Boot.Serial.{ulite_rx, ulite_status, minus_one, serial_haschar, serial_getchar}
use qrisc_v.Boot.Serial.Output.{IsReady, until_zero, Printed}
use qrisc_v.Boot.Serial.Output.{Halted, Halted-exit, serial_putchar-Printed, serial_putstr-Printed}
use qrisc_v.Boot.Assert.{failure}
use qrisc_v.Boot.Emulation.Atomic.{set_reg}
use qrisc_v.Boot.Sbi.{reg_arg0, set_timer, console_getchar, console_putchar, stop, sbi_syscall}

-- The calls by their numbers.
pub data Call : Type 0 where
  set_timer_call putchar_call getchar_call fence_call shutdown_call unknown_call : Call

unfoldable pub call_of : ℕ → Call
call_of which =
    if which == 0
    then set_timer_call
    else (if which == 1
        then putchar_call
        else (if which == 2
            then getchar_call
            else (if which == 5
                then fence_call
                else (if which == 6
                    then fence_call
                    else (if which == 8 then shutdown_call else unknown_call)))))

number_cases :
    (w : ℕ)
    → (w ≡ 0)
      ⊎ (w ≡ 1)
      ⊎ (w ≡ 2)
      ⊎ (w ≡ 5)
      ⊎ (w ≡ 6)
      ⊎ (w ≡ 8)
      ⊎ (((w == 8) ≡ false)
          × ((w == 1) ≡ false)
          × ((w == 2) ≡ false)
          × ((w == 0) ≡ false)
          × ((w == 5) ≡ false)
          × ((w == 6) ≡ false))
number_cases w = ground arith

module _ (env : Platform) (ctx : IrqContext) (m : Machine) where
  abbrev status : ℕ
  status = add32 m.m_uart ulite_status

  abbrev rx : ℕ
  rx = add32 m.m_uart ulite_rx

  -- The receive buffer's state is read twice, then the character.
  abbrev read_once : Trace
  read_once = after_read env.answer status m.io

  abbrev read_twice : Trace
  read_twice = after_read env.answer status read_once

  -- Whether a read of the status after these accesses finds a character.
  abbrev pub has_char : Trace → Bool
  has_char t = not (bit 0 (u32 (env.answer t status)) == 0)

  -- A character is taken from the receive register if the status shows one at both reads.
  abbrev pub Received : Run IrqContext → Type 0
  Received r = r ≡ (
      if has_char m.io
      then (if has_char read_once
          then ok (set_reg ctx reg_arg0 (u8 (u32 (env.answer read_twice rx))))
              (record m { io = after_read env.answer rx read_twice })
          else ok (set_reg ctx reg_arg0 minus_one) (record m { io = read_twice }))
      else ok (set_reg ctx reg_arg0 minus_one) (record m { io = read_once }))

  rxvalid : (v : ℕ) → (bit_and v (2 ^ 0) == 0) ≡ (bit 0 v == 0)
  rxvalid v = rw (bit_and-one_bit 0 v) (ground arith)

  pub console_getchar-Received : Received (console_getchar env ctx m)
  unfolding console_getchar serial_haschar serial_getchar
  console_getchar-Received =
      let first = rxvalid (u32 (env.answer m.io status)) in
      let second = rxvalid (u32 (env.answer read_once status)) in
      elim (Bool-cases (has_char m.io)) [
        | inr empty ↦ rw (first, empty)
        | inl here ↦ elim (Bool-cases (has_char read_once)) [
          | inl still ↦ rw (first, here, second, still)
          | inr gone ↦ rw (first, here, second, gone)
        ]
      ]

  -- The next tick is set: the compare register, the machine timer's interrupt on, the supervisor's
  -- tick withdrawn, and bit by bit nothing else of `mie` (among the interrupts there are), of `mip`
  -- or of the machine.
  abbrev pub TimerSet : ℕ → Run IrqContext → Type 0
  TimerSet next r =
      (m' : Machine) × (r ≡ ok ctx m')
      × (m'.csr mtimecmp ≡ next)
      × ((k : ℕ)
          → k < 32
          → bit k (m'.csr mie) ≡ (if k == 7 then 1 else min (bit k (m.csr mie)) (bit k 0xaaa)))
      × ((k : ℕ) → k < 32 → bit k (m'.csr mip) ≡ (if k == 5 then 0 else bit k (m.csr mip)))
      × ((c : ℕ) → c ≢ mtimecmp → c ≢ mie → c ≢ mip → m'.csr c ≡ m.csr c)
      × (m'.mem ≡ m.mem)
      × (m'.io ≡ m.io)
      × (m'.load_reservation ≡ m.load_reservation)

  set_timer-TimerSet : (next : ℕ) → TimerSet next (set_timer ctx next m)
  unfolding set_timer Csr.set_bits Csr.clear_bits Csr.write Csr.read Csr.kept
  set_timer-TimerSet next =
      let f = Csr.write m.csr mtimecmp next in
      let g = Csr.set_bits f mie sr_ip_mtip in
      (
        _,
        refl,
        refl,
        λ k h. set_mtie f k h,
        λ k h. clear_stip g k h,
        λ c n1 n2 n3. ground arith,
        refl,
        refl,
        refl,
      )

  -- What a call does.
  abbrev pub CallEffect : Call → Run IrqContext → Type 0
  CallEffect set_timer_call r = TimerSet (ctx.reg 10) r
  CallEffect putchar_call r = Printed (u8 (ctx.reg 10) ∷ []) ctx m r
  CallEffect getchar_call r = Received r
  CallEffect fence_call r = r ≡ ok ctx m
  CallEffect shutdown_call r = Halted (until_zero (codes "Shutdown...\n")) 0 m r
  CallEffect unknown_call r =
      Halted (until_zero (codes "SBI: Unhandled SYSCALL, stopping...\n")) failure m r

  pub stop-Halted :
      (message : List ℕ) (code : ℕ)
      → IsReady env m.m_uart
      → Halted (until_zero message) code m (stop env message code m)
  unfolding stop
  stop-Halted message code ready = Halted-exit code (serial_putstr-Printed env message m ready)

  pub console_putchar-Printed :
      (c : ℕ) → IsReady env m.m_uart → Printed (u8 c ∷ []) ctx m (console_putchar env ctx c m)
  unfolding console_putchar
  console_putchar-Printed c ready =
      let p = serial_putchar-Printed env (u8 c) m ready in
      record { trace = p.trace; returns = rw p.returns; sent = p.sent; no_overrun = p.no_overrun }

  -- With a UART that is ready, each of the kernel's calls does what its number asks for: the timer
  -- is set as `TimerSet` says, a character is printed or received, a fence does nothing, and a
  -- shutdown and any other number print their message and end the run.
  pub sbi_syscall-CallEffect :
      IsReady env m.m_uart → CallEffect (call_of (ctx.reg 17)) (sbi_syscall env ctx m)
  unfolding sbi_syscall call_of
  sbi_syscall-CallEffect ready = elim (number_cases (ctx.reg 17)) [
    | inl e ↦ rw e (set_timer-TimerSet (ctx.reg 10))
    | inr (inl e) ↦ rw e (console_putchar-Printed (ctx.reg 10) ready)
    | inr (inr (inl e)) ↦ rw e console_getchar-Received
    | inr (inr (inr (inl e))) ↦ rw e
    | inr (inr (inr (inr (inl e)))) ↦ rw e
    | inr (inr (inr (inr (inr (inl e))))) ↦ rw e (stop-Halted (codes "Shutdown...\n") 0 ready)
    | inr (inr (inr (inr (inr (inr e))))) ↦
        rw (e.0, e.1, e.2, e.3, e.4, e.5)
          (stop-Halted (codes "SBI: Unhandled SYSCALL, stopping...\n") failure ready)
  ]
