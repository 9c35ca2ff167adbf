-- ===== src/Sdk/Journal.antt =====
-- What a program of the SDK (sdk/baremetal/bm.h) does to the devices besides its text, in order.
use qrisc_v.Base.{ℕ, Bool, List, [], ◌∷◌, ◌++◌, ◌==◌, if◌then◌else◌}
use qrisc_v.Mmio.{Trace, load, store, found_clear}
use qrisc_v.Sdk.{uart_tx, spi_sr, spi_drr}

-- A write to a register; or a read of the SPI's receive register, and whether the access just
-- before it was a read of the status that showed a byte there.
pub data Event : Type 0 where
  wrote : ℕ → ℕ → Event
  received : Bool → Event

unfoldable pub journal : Trace → List Event
journal [] = []
journal (load b v ∷ t) =
    if b == spi_drr then journal t ++ received (found_clear spi_sr 0 t) ∷ [] else journal t
journal (store b v ∷ t) = if b == uart_tx then journal t else journal t ++ wrote b v ∷ []
