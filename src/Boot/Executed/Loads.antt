-- ===== src/Boot/Executed/Loads.antt =====
-- A misaligned load as the interrupted code sees it.
use qrisc_v.Base.{true, ℕ, Option, some, none}
use qrisc_v.Base.{add32}
use qrisc_v.Boot.Csr
use qrisc_v.Boot.Csr.{mepc, mcause, mtval}
use qrisc_v.Boot.State.{Platform, Machine, Run}
use qrisc_v.Boot.Emulation.Access.{word_of}
use qrisc_v.Boot.Emulation.Width.{rd_field}
use qrisc_v.Boot.Emulation.Width.{load_width}
use qrisc_v.Boot.Emulation.Value.{loaded_value}
use qrisc_v.Boot.Emulation.Bytes.{first_fault, load_faults}
use qrisc_v.Boot.Emulation.Load
use qrisc_v.Boot.Executed.{written_to, Done, Delegated}

module _ (env : Platform) (unwritten : ℕ) (x : ℕ → ℕ) (m : Machine) where
  -- The load at `addr` by the architecture, by the first of its bytes that faults.
  abbrev pub LoadMoved : ℕ → ℕ → Option (ℕ × ℕ) → Run (ℕ → ℕ) → Type 0
  LoadMoved addr instr none r =
      let v = loaded_value env m.mem addr instr in
      Done env unwritten x m (written_to (rd_field instr) v x) m.mem m.load_reservation r
  LoadMoved addr instr (some (i, cause)) r =
      Delegated env unwritten x m cause (add32 addr i) m.mem r

  abbrev pub LoadDecoded : ℕ → ℕ → Option ℕ → Run (ℕ → ℕ) → Type 0
  LoadDecoded addr instr none r = Delegated env unwritten x m (m.csr mcause) (m.csr mtval) m.mem r
  LoadDecoded addr instr (some len) r =
      LoadMoved addr instr (first_fault (load_faults env addr) len 0) r

  abbrev pub LoadFetched : ℕ → Option ℕ → Run (ℕ → ℕ) → Type 0
  LoadFetched addr none r =
      let instr = word_of env true m.mem (m.csr mepc) in LoadDecoded addr instr (load_width instr) r
  LoadFetched addr (some cause) r = Delegated env unwritten x m cause (m.csr mepc) m.mem r
