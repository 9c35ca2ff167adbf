-- ===== src/Boot/Executed/Stores.antt =====
-- A misaligned store as the interrupted code sees it.
use qrisc_v.Base.{true, ℕ, Option, some, none}
use qrisc_v.Base.{add32}
use qrisc_v.Boot.Csr
use qrisc_v.Boot.Csr.{mepc, mcause, mtval}
use qrisc_v.Boot.State.{Platform, Machine, Run}
use qrisc_v.Boot.Emulation.Access.{word_of}
use qrisc_v.Boot.Emulation.Width.{rs2_field}
use qrisc_v.Boot.Emulation.Width.{store_width}
use qrisc_v.Boot.Emulation.Bytes.{first_fault, store_faults, scattered}
use qrisc_v.Boot.Emulation.Store
use qrisc_v.Boot.Executed.{Done, Delegated}

module _ (env : Platform) (unwritten : ℕ) (x : ℕ → ℕ) (m : Machine) where
  -- The store of `v` at `addr` by the architecture, by the first of its bytes that faults.
  abbrev pub StoreMoved : ℕ → ℕ → ℕ → Option (ℕ × ℕ) → Run (ℕ → ℕ) → Type 0
  StoreMoved addr v len none r =
      Done env unwritten x m x (scattered env addr v m.mem len) m.load_reservation r
  StoreMoved addr v len (some (i, cause)) r =
      Delegated env unwritten x m cause (add32 addr i) (scattered env addr v m.mem i) r

  abbrev pub StoreDecoded : ℕ → ℕ → Option ℕ → Run (ℕ → ℕ) → Type 0
  StoreDecoded addr v none r = Delegated env unwritten x m (m.csr mcause) (m.csr mtval) m.mem r
  StoreDecoded addr v (some len) r =
      StoreMoved addr v len (first_fault (store_faults env addr) len 0) r

  abbrev pub StoreFetched : ℕ → Option ℕ → Run (ℕ → ℕ) → Type 0
  StoreFetched addr none r =
      let instr = word_of env true m.mem (m.csr mepc) in
      StoreDecoded addr (x (rs2_field instr)) (store_width instr) r
  StoreFetched addr (some cause) r = Delegated env unwritten x m cause (m.csr mepc) m.mem r
