-- ===== src/Boot/Emulation/Returns.antt =====
-- Emulated instructions come back, done or handed on to the supervisor.
use qrisc_v.Base.{ℕ, ◌^◌, ◌<◌, ◌≡◌, refl, ◌⊎◌, inl, inr, Bool, true, false, Option, none, some}
use qrisc_v.Boot.Csr
use qrisc_v.Boot.Csr.{mtval}
use qrisc_v.Boot.State.{Platform, IrqContext, Machine, Run, ok}
use qrisc_v.Boot.Emulation.Width.{opcode_field, funct3_field, funct5_field, rs2_field}
use qrisc_v.Boot.Emulation.Atomic.{source_reg, trap_invalid_inst}
use qrisc_v.Boot.Emulation.Reserve.{IsAtomic, LoadReserved, StoreReserved, StoreConditional}
use qrisc_v.Boot.Emulation.Reserve.{lr_effect, sc_effect}
use qrisc_v.Boot.Emulation.Amo.{Amo, funct5, Exchanged, Swapped, amo_effect}
use qrisc_v.Boot.Emulation.Load.{LoadFetched, LoadDecoded, LoadMoved}
use qrisc_v.Boot.Emulation.Store.{StoreFetched, StoreDecoded, StoreMoved}

abbrev pub Returns : {A : Type 0} → Run A → Type 0
Returns {A} r = (a : A) × (m' : Machine) × (r ≡ ok a m')

module _ (env : Platform) (ctx : IrqContext) (m : Machine) where
  -- An LR, an SC or one of the nine read-modify-write instructions, in `mtval`.
  abbrev pub IsEmulated : Type 0
  IsEmulated =
      let instr = Csr.read m.csr mtval in
      IsAtomic instr 0x2
      ⊎ IsAtomic instr 0x3
      ⊎ ((op : Amo) × ((opcode_field instr ≡ 0x2f)
            × (funct3_field instr ≡ 0x2)
            × (funct5_field instr ≡ funct5 op))
          × (source_reg ctx (rs2_field instr) < 2 ^ 32))

  Reserved-Returns :
      (instr addr : ℕ) (o : Option ℕ) (r : Run IrqContext)
      → LoadReserved env ctx m instr addr o r
      → Returns r
  Reserved-Returns instr addr none r e = (_, _, e)
  Reserved-Returns instr addr (some cause) r d = (_, _, d.returns)

  Stored-Returns :
      (instr addr v : ℕ) (o : Option ℕ) (r : Run IrqContext)
      → StoreReserved env ctx m instr addr v o r
      → Returns r
  Stored-Returns instr addr v none r e = (_, _, e)
  Stored-Returns instr addr v (some cause) r d = (_, _, d.returns)

  Conditional-Returns :
      (instr addr v : ℕ) (b : Bool) (r : Run IrqContext)
      → StoreConditional env ctx m instr addr v b r
      → Returns r
  Conditional-Returns instr addr v true r e = Stored-Returns instr addr v _ r e
  Conditional-Returns instr addr v false r e = (_, _, e)

  Swapped-Returns :
      (instr addr old v : ℕ) (o : Option ℕ) (r : Run IrqContext)
      → Swapped env ctx m instr addr old v o r
      → Returns r
  Swapped-Returns instr addr old v none r e = (_, _, e)
  Swapped-Returns instr addr old v (some cause) r d = (_, _, d.returns)

  Exchanged-Returns :
      (op : Amo) (instr addr src : ℕ) (o : Option ℕ) (r : Run IrqContext)
      → Exchanged env ctx m op instr addr src o r
      → Returns r
  Exchanged-Returns op instr addr src none r (v, _, swapped) =
      Swapped-Returns instr addr _ v _ r swapped
  Exchanged-Returns op instr addr src (some cause) r d = (_, _, d.returns)

  pub emulated-Returns : IsEmulated → Returns (trap_invalid_inst env ctx m)
  emulated-Returns (inl lr) = Reserved-Returns _ _ _ _ (lr_effect env ctx m _ refl lr)
  emulated-Returns (inr (inl sc)) = Conditional-Returns _ _ _ _ _ (sc_effect env ctx m _ refl sc)
  emulated-Returns (inr (inr (op, decoded, small))) =
      Exchanged-Returns op _ _ _ _ _ (amo_effect env ctx m op _ refl decoded small)

  LoadMoved-Returns :
      (addr instr : ℕ) (o : Option (ℕ × ℕ)) (r : Run IrqContext)
      → LoadMoved env ctx m addr instr o r
      → Returns r
  LoadMoved-Returns addr instr none r done = (_, _, done.returns)
  LoadMoved-Returns addr instr (some (i, cause)) r d = (_, _, d.returns)

  LoadDecoded-Returns :
      (addr instr : ℕ) (o : Option ℕ) (r : Run IrqContext)
      → LoadDecoded env ctx m addr instr o r
      → Returns r
  LoadDecoded-Returns addr instr none r d = (_, _, d.returns)
  LoadDecoded-Returns addr instr (some len) r moved = LoadMoved-Returns addr instr _ r moved

  pub LoadFetched-Returns :
      (addr : ℕ) (o : Option ℕ) (r : Run IrqContext) → LoadFetched env ctx m addr o r → Returns r
  LoadFetched-Returns addr none r decoded = LoadDecoded-Returns addr _ _ r decoded
  LoadFetched-Returns addr (some cause) r d = (_, _, d.returns)

  StoreMoved-Returns :
      (addr v len : ℕ) (o : Option (ℕ × ℕ)) (r : Run IrqContext)
      → StoreMoved env ctx m addr v len o r
      → Returns r
  StoreMoved-Returns addr v len none r done = (_, _, done.returns)
  StoreMoved-Returns addr v len (some (i, cause)) r d = (_, _, d.returns)

  StoreDecoded-Returns :
      (addr v : ℕ) (o : Option ℕ) (r : Run IrqContext)
      → StoreDecoded env ctx m addr v o r
      → Returns r
  StoreDecoded-Returns addr v none r d = (_, _, d.returns)
  StoreDecoded-Returns addr v (some len) r moved = StoreMoved-Returns addr v len _ r moved

  pub StoreFetched-Returns :
      (addr : ℕ) (o : Option ℕ) (r : Run IrqContext) → StoreFetched env ctx m addr o r → Returns r
  StoreFetched-Returns addr none r decoded = StoreDecoded-Returns addr _ _ r decoded
  StoreFetched-Returns addr (some cause) r d = (_, _, d.returns)
