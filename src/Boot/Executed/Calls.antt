-- ===== src/Boot/Executed/Calls.antt =====
-- The call that reads a character as the kernel sees it: through the whole trap, from its `ecall`
-- to the `mret` behind it.
use qrisc_v.Base.{ℕ, Bool}
use qrisc_v.Base.{◌==◌, not, if◌then◌else◌, bit, u8, u32, add32}
use qrisc_v.Mmio.{Trace, after_read}
use qrisc_v.Boot.Csr
use qrisc_v.Boot.State.{Platform, IrqContext, Machine}
use qrisc_v.Boot.Serial.{ulite_rx, ulite_status, minus_one}
use qrisc_v.Boot.Emulation.Atomic.{set_reg}
use qrisc_v.Boot.Executed.{context}

module _ (env : Platform) (unwritten : ℕ) (x : ℕ → ℕ) (m : Machine) where
  -- The accesses: a read of the status, another if it shows a character, and a read of the
  -- character if both do.
  abbrev status_read : Trace → Trace
  status_read t = after_read env.answer (add32 m.m_uart ulite_status) t

  abbrev shows_char : Trace → Bool
  shows_char t = not (bit 0 (u32 (env.answer t (add32 m.m_uart ulite_status))) == 0)

  -- What the call gives, and the accesses behind it.
  unfoldable pub received : ℕ × Trace
  received =
      let once = status_read m.io in
      let twice = status_read once in
      if shows_char m.io
      then (if shows_char once
          then (
            u8 (u32 (env.answer twice (add32 m.m_uart ulite_rx))),
            after_read env.answer (add32 m.m_uart ulite_rx) twice,
          )
          else (minus_one, twice))
      else (minus_one, once)

  abbrev with_received : IrqContext
  with_received = set_reg (context env unwritten x m) 10 received.0
