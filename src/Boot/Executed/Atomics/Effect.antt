-- ===== src/Boot/Executed/Atomics/Effect.antt =====
-- The handlers do what the architecture says of the atomic instructions, through the whole trap.
use qrisc_v.Boot.Csr
use qrisc_v.Boot.Csr.{mepc}
use qrisc_v.Boot.Emulation.Reserve
use qrisc_v.Boot.Emulation.Amo
use qrisc_v.Boot.Emulation.Amo.{Amo, funct5, Stores}
