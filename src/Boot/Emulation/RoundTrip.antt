-- ===== src/Boot/Emulation/RoundTrip.antt =====
-- A misaligned word that one trap stores and a later trap loads.
use qrisc_v.Base.{ℕ, zero, suc, ◌+◌, ◌^◌, ◌<◌, ◌≡◌, ◌≢◌, refl, true, Option, none, some, arith}
use qrisc_v.Base.{◌==◌}
use mathlib.Core.Path.{subst}
use qrisc_v.Base.{false}
use qrisc_v.Boot.Csr
use qrisc_v.Boot.Csr.{mtval}
use qrisc_v.Boot.State.{Platform, IrqContext, Machine, Run, ok, and_then}
use qrisc_v.Boot.Emulation.Access.{word_of, put_word}
use qrisc_v.Boot.Emulation.Width.{rd_field, rs2_field}
use qrisc_v.Boot.Emulation.Atomic.{set_reg, source_reg}
use qrisc_v.Boot.Emulation.Misaligned.{trap_misaligned_ld, trap_misaligned_st}
use qrisc_v.Boot.Emulation.Reserve.{next_inst}
use qrisc_v.Boot.Emulation.Width.{opcode_field, funct3_field, load_width, store_width}
use qrisc_v.Boot.Emulation.Bytes.{first_fault, load_faults, store_faults}
use qrisc_v.Boot.Emulation.Outcome.{Completed}
use qrisc_v.Boot.Emulation.Load.{LoadFetched, LoadMoved, with_loaded, misaligned_load_effect}
use qrisc_v.Boot.Emulation.Store.{
  IsApart, StoreFetched, StoreMoved, scattered-put_word, word_of-put_word,
}
use qrisc_v.Boot.Emulation.Store.{misaligned_store_effect}

first_fault-none :
    (fault : ℕ → Option ℕ) (n i : ℕ) → ((j : ℕ) → fault j ≡ none) → first_fault fault n i ≡ none
unfolding first_fault
first_fault-none fault zero i fine = refl
first_fault-none fault (suc n) i fine = rw (fine i) (first_fault-none fault n (i + 1) fine)

-- The core refuses an access at `addr`.
abbrev pub refused : ℕ → Machine → Machine
refused addr m = record m { csr = Csr.write m.csr mtval addr }

-- LW and SW by their fields.
abbrev pub IsLoadWord : ℕ → Type 0
IsLoadWord instr = (opcode_field instr ≡ 3) × (funct3_field instr ≡ 2)

abbrev pub IsStoreWord : ℕ → Type 0
IsStoreWord instr = (opcode_field instr ≡ 35) × (funct3_field instr ≡ 2)

-- No access of a byte of the word faults.
abbrev pub IsAccessible : Platform → ℕ → Type 0
IsAccessible env addr =
    ((i : ℕ) → load_faults env addr i ≡ none) × ((i : ℕ) → store_faults env addr i ≡ none)

refused-mtval : (addr : ℕ) (m : Machine) → Csr.read (refused addr m).csr mtval ≡ addr
unfolding Csr.read Csr.write Csr.kept
refused-mtval addr m = refl

module _ (env : Platform) (addr : ℕ) (accessible : IsAccessible env addr) where
  store_word-Completed :
      (ctx : IrqContext) (m : Machine)
      → env.load_fault true 4 ctx.pc ≡ none
      → IsStoreWord (word_of env true m.mem ctx.pc)
      → let v = source_reg ctx (rs2_field (word_of env true m.mem ctx.pc)) in
        Completed env
          (next_inst ctx)
          (refused addr m)
          (put_word env true m.mem addr v)
          (trap_misaligned_st env ctx (refused addr m))
  store_word-Completed ctx m fetched decoded =
      let at = refused addr m in
      let instr = word_of env true m.mem ctx.pc in
      let v = source_reg ctx (rs2_field instr) in
      let r = trap_misaligned_st env ctx at in
      let whole : StoreFetched env ctx at addr none r =
        rw (fetched, refused-mtval addr m) at (misaligned_store_effect env ctx at) in
      let width : store_width instr ≡ some 4 = rw (decoded.0, decoded.1) in
      let moved : StoreMoved env ctx at addr v 4 (first_fault (store_faults env addr) 4 0) r =
        rw width at whole in
      let done : StoreMoved env ctx at addr v 4 none r =
        rw (first_fault-none (store_faults env addr) 4 0 accessible.1) at moved in
      rw (← scattered-put_word env addr v m.mem) done

  -- A word loaded from a memory.
  abbrev Loads : IrqContext → Machine → (ℕ → ℕ) → Type 0
  Loads ctx m mem =
      let instr = word_of env true mem ctx.pc in
      IsLoadWord instr
      → rd_field instr ≢ 0
      → Completed env (next_inst (set_reg ctx (rd_field instr) (word_of env true mem addr)))
          (refused addr m) mem (trap_misaligned_ld env ctx (refused addr m))

  load_word-Completed :
      (ctx : IrqContext) (m : Machine) → env.load_fault true 4 ctx.pc ≡ none → Loads ctx m m.mem
  load_word-Completed ctx m fetched decoded wanted =
      let at = refused addr m in
      let instr = word_of env true m.mem ctx.pc in
      let r = trap_misaligned_ld env ctx at in
      let whole : LoadFetched env ctx at addr none r =
        rw (fetched, refused-mtval addr m) at (misaligned_load_effect env ctx at) in
      let width : load_width instr ≡ some 4 = rw (decoded.0, decoded.1) in
      let moved : LoadMoved env ctx at addr instr (first_fault (load_faults env addr) 4 0) r =
        rw width at whole in
      let done : LoadMoved env ctx at addr instr none r =
        rw (first_fault-none (load_faults env addr) 4 0 accessible.0) at moved in
      let given : (rd_field instr == 0) ≡ false = ground arith in
      let chosen : with_loaded env ctx at addr instr
          ≡ set_reg ctx (rd_field instr) (word_of env true m.mem addr) =
        rw (given, decoded.1) in
      subst (λ c. Completed env (next_inst c) at m.mem r) chosen done

-- A word stored at `addr` by the trap of `ctx`, and loaded by a later one of `ctx'`.
abbrev pub store_then_load :
    Platform → (addr : ℕ) (ctx ctx' : IrqContext) → Machine → Run IrqContext
store_then_load env addr ctx ctx' m =
    and_then (trap_misaligned_st env ctx (refused addr m))
      λ _ m'. trap_misaligned_ld env ctx' (refused addr m')

-- With an address whose bytes are accessible and four in memory, an SW that the core refused there
-- and a later LW that it refused there, fetched without a fault from memory as the store left it:
-- both traps return, and the load's register, other than 0, gets the stored register's value, which
-- is a 32-bit word; memory is as the store left it.
pub misaligned-RoundTrip :
    (env : Platform) (addr : ℕ) (ctx ctx' : IrqContext) (m : Machine)
    → IsAccessible env addr
    → IsApart env addr
    → env.load_fault true 4 ctx.pc ≡ none
    → env.load_fault true 4 ctx'.pc ≡ none
    → let st = word_of env true m.mem ctx.pc in
      let v = source_reg ctx (rs2_field st) in
      let stored = put_word env true m.mem addr v in
      let ld = word_of env true stored ctx'.pc in
      v < 2 ^ 32
      → IsStoreWord st
      → IsLoadWord ld
      → rd_field ld ≢ 0
      → (after : Machine) × (store_then_load env addr ctx ctx' m
          ≡ ok (next_inst (set_reg ctx' (rd_field ld) v)) after)
        × (after.mem ≡ stored)
misaligned-RoundTrip env addr ctx ctx' m accessible apart fetched fetched' small st ld wanted =
    let v = source_reg ctx (rs2_field (word_of env true m.mem ctx.pc)) in
    let done = store_word-Completed env addr accessible ctx m fetched st in
    let loads : Loads env addr accessible ctx' done.after (put_word env true m.mem addr v) =
      subst (λ mem. Loads env addr accessible ctx' done.after mem) done.memory
        (load_word-Completed env addr accessible ctx' done.after fetched') in
    let loaded = loads ld wanted in
    (
      loaded.after,
      rw (done.returns, loaded.returns, word_of-put_word env addr v m.mem apart small),
      loaded.memory,
    )
