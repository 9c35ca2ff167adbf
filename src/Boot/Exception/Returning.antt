-- ===== src/Boot/Exception/Returning.antt =====
-- The traps that come back: the tick, the emulated instructions that are ones, and the calls but
-- the shutdown.
use qrisc_v.Base.{ℕ, ◌^◌, ◌<◌, ◌≡◌, refl, ◌∙◌, Bool, true, false, arith}
use qrisc_v.Base.{if◌then◌else◌}
use qrisc_v.Boot.Csr
use qrisc_v.Boot.Csr.{mtval}
use qrisc_v.Boot.State.{Platform, IrqContext, Machine, Run}
use qrisc_v.Boot.Serial.Output.{IsReady}
use qrisc_v.Boot.Sbi.Calls
use qrisc_v.Boot.Sbi.Calls.{Call, CallEffect, call_of}
use qrisc_v.Boot.Sbi.Timer.{raise_timer_effect}
use qrisc_v.Boot.Emulation.Load.{misaligned_load_effect}
use qrisc_v.Boot.Emulation.Store.{misaligned_store_effect}
use qrisc_v.Boot.Exception.{exception_handler}
use qrisc_v.Boot.Exception.Dispatch
use qrisc_v.Boot.Exception.Dispatch.{
  Service, service_of, Served, IsStarted, exception_handler-Served,
}
use qrisc_v.Base.{add32}
use qrisc_v.Boot.Csr.{mscratch}
use qrisc_v.Boot.Start.{Config, uartlite_base}
use qrisc_v.Boot.Vector.{trap, restore, saved, entered, frame_below}
use qrisc_v.Boot.Exception.Serving.{IsServing}
use qrisc_v.Boot.Start.Copy.{IsBare}
use qrisc_v.Boot.Reset.Cleared.{IsLinked}
use qrisc_v.Boot.Exception.Reach.{Reach, Reach-IsServing}
use qrisc_v.Boot.Emulation.Returns.{
  Returns, IsEmulated, emulated-Returns, LoadFetched-Returns, StoreFetched-Returns,
}

Returns-if :
    {A : Type 0} (b : Bool) {r s : Run A} → Returns r → Returns s → Returns (if b then r else s)
Returns-if true r s = r
Returns-if false r s = s

-- The calls that come back.
abbrev pub IsAnswered : Call → Type 0
IsAnswered Calls.shutdown_call = ⊥
IsAnswered Calls.unknown_call = ⊥
IsAnswered other = Unit

module _ (env : Platform) (ctx : IrqContext) (m : Machine) where
  answered-Returns :
      (c : Call) (r : Run IrqContext) → IsAnswered c → CallEffect env ctx m c r → Returns r
  answered-Returns Calls.set_timer_call r _ set = (_, _, set.1)
  answered-Returns Calls.putchar_call r _ printed = (_, _, printed.returns)
  answered-Returns Calls.getchar_call r _ e =
      let got = Returns-if _ (Returns-if _ (_, _, refl) (_, _, refl)) (_, _, refl) in
      (got.0, got.1, e ∙ got.2)
  answered-Returns Calls.fence_call r _ e = (_, _, e)
  answered-Returns Calls.shutdown_call r never e = absurd never
  answered-Returns Calls.unknown_call r never e = absurd never

module _ (env : Platform) (ctx : IrqContext) (m : Machine) where
  abbrev pub IsSupported : Service → Type 0
  IsSupported Dispatch.timer_tick = Unit
  IsSupported Dispatch.atomic_inst = IsEmulated env ctx m
  IsSupported Dispatch.load_inst = Unit
  IsSupported Dispatch.store_inst = Unit
  IsSupported Dispatch.supervisor_call = IsAnswered (call_of (ctx.reg 17))
  IsSupported Dispatch.unknown_irq = ⊥
  IsSupported Dispatch.unexpected = ⊥

  Served-Returns :
      (s : Service) (r : Run IrqContext) → IsSupported s → Served env ctx m s r → Returns r
  Served-Returns Dispatch.timer_tick r _ e =
      let raised = raise_timer_effect ctx m 0 (omega arith) in (_, _, e ∙ raised.1)
  Served-Returns Dispatch.atomic_inst r emulated e =
      let back = emulated-Returns env ctx m emulated in (_, _, e ∙ back.2)
  Served-Returns Dispatch.load_inst r _ e =
      let back = LoadFetched-Returns env ctx m _ _ _ (misaligned_load_effect env ctx m) in
      (_, _, e ∙ back.2)
  Served-Returns Dispatch.store_inst r _ e =
      let back = StoreFetched-Returns env ctx m _ _ _ (misaligned_store_effect env ctx m) in
      (_, _, e ∙ back.2)
  Served-Returns Dispatch.supervisor_call r answered e =
      answered-Returns env (record ctx { pc = add32 ctx.pc 4 }) m (call_of (ctx.reg 17)) r answered
        e
  Served-Returns Dispatch.unknown_irq r never e = absurd never
  Served-Returns Dispatch.unexpected r never e = absurd never

  pub exception_handler-Returns :
      IsStarted m
      → IsReady env m.m_uart
      → ctx.cause < 2 ^ 32
      → ctx.pc < 2 ^ 32
      → IsSupported (service_of ctx.cause)
      → Returns (exception_handler env ctx m)
  exception_handler-Returns started ready hc hp supported =
      Served-Returns (service_of ctx.cause) _ supported
        (exception_handler-Served env ctx m started ready hc hp)

module _ (env : Platform) (bare : IsBare env) (linked : IsLinked env) (config : Config)
    (m : Machine) (unwritten : ℕ) (x : ℕ → ℕ) where
  restore-Returns : (frame : ℕ) (ctx : IrqContext) (m' : Machine) → Returns (restore frame ctx m')
  unfolding restore
  restore-Returns frame ctx m' = (_, _, refl)

  top-stack : IsServing env env.stack_top m → Csr.read m.csr mscratch ≡ env.stack_top
  unfolding Csr.read
  top-stack serving = serving.scratch

  -- With the image where the linker script puts it, physical addresses in machine mode and a UART
  -- that is ready, a trap of any reachable machine comes back from its `mret`, if its cause and
  -- address have 32 bits and it is the machine timer's interrupt, an LR, SC or read-modify-write
  -- instruction (with 32 bits in its source register), a misaligned load or store, or a call of the
  -- supervisor but the shutdown and the unknown ones.
  pub trap-Returns :
      Reach env config m
      → IsReady env uartlite_base
      → let at = entered x m in
        let ctx = saved unwritten (frame_below env.stack_top) x at in
        ctx.cause < 2 ^ 32
        → ctx.pc < 2 ^ 32
        → IsSupported env ctx at (service_of ctx.cause)
        → Returns (trap env unwritten x m)
  unfolding trap
  trap-Returns reached ready hc hp supported =
      let serving = Reach-IsServing env bare linked config reached in
      let at = entered x m in
      let ctx = saved unwritten (frame_below env.stack_top) x at in
      let back =
        exception_handler-Returns env ctx at serving.started (rw serving.console ready) hc hp
          supported in
      let end = restore-Returns (frame_below env.stack_top) back.0 back.1 in
      (end.0, end.1, rw (top-stack serving, back.2) end.2)
