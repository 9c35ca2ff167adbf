-- ===== src/Tests/Invariant/Executed.antt =====
-- Emulated instructions of the kernel, through the whole trap.
use qrisc_v.Base.{ℕ, true, ◌==◌, if◌then◌else◌, update}
use qrisc_v.Boot.Csr
use qrisc_v.Boot.Csr.{mie, mcause, mtval}
use qrisc_v.Boot.State.{Machine}
use qrisc_v.Boot.Emulation.Access.{put_word}
use qrisc_v.Boot.State.{Platform}
use qrisc_v.Tests.{platform, context}
use qrisc_v.Tests.Invariant.{handed_over}

-- The kernel's registers, and an exception in it.
abbrev registers : ℕ → ℕ
registers i = if i == 0 then 0 else context.reg i

abbrev refused : ℕ → ℕ → ℕ → Machine
refused cause value instr = record handed_over {
  csr = update (update (update handed_over.csr mie 0x2a2) mcause cause) mtval value;
  mem = put_word platform true (λ a. a) 0x40000000 instr;
}

-- lw x7, (x6), sw x7, (x6) and amoadd.w x5, x7, (x6)
abbrev lw : ℕ
lw = 0x00032383

abbrev sw : ℕ
sw = 0x00732023

abbrev amoadd_w : ℕ
amoadd_w = 0x007322af

-- The timer is to be set to 5000.
abbrev timer_call : ℕ → ℕ
timer_call i = if i == 17 then 0 else (if i == 10 then 5000 else registers i)

-- A character is asked for.
abbrev getchar_call : ℕ → ℕ
getchar_call i = if i == 17 then 2 else registers i

-- The same machine with a character in the receive buffer, an A.
abbrev typed : Platform
typed = record platform { answer = λ t a. 65 }
