-- ===== src/Boot/Emulation/Bytes.antt =====
-- The two byte loops of the misaligned handlers: which bytes they move, and where they stop.
use native.Mathlib.Numerals.{add-one}
use qrisc_v.Base.{ℕ, zero, suc, ◌+◌, ◌*◌, ◌≡◌, ◌≢◌, refl, ◌∙◌, true}
use qrisc_v.Base.{Option, none, some, inl, inr, Option-cases, u8, add32, ◌<<◌, ◌>>>◌, bit_or, arith}
use qrisc_v.Boot.Csr.{CsrFile, mstatus, mtvec}
use qrisc_v.Boot.State.{Platform, Machine, Run, ok}
use qrisc_v.Boot.Emulation.Access.{byte_at, put_byte}
use qrisc_v.Boot.Emulation.Misaligned.{load_loop, store_loop}
use qrisc_v.Boot.Emulation.Guard.{guarded, faulted, with_csr, guarded-same}
use qrisc_v.Boot.Emulation.Guard.{read_byte-ok, read_byte-fault, write_byte-ok, write_byte-fault}

abbrev pub fault_or : Option ℕ → ℕ → Option (ℕ × ℕ) → Option (ℕ × ℕ)
fault_or none i rest = rest
fault_or (some cause) i rest = some (i, cause)

-- The first of `n` accesses from number `i` that faults, with its cause.
unfoldable pub first_fault : (ℕ → Option ℕ) → ℕ → ℕ → Option (ℕ × ℕ)
first_fault fault zero i = none
first_fault fault (suc n) i = fault_or (fault i) i (first_fault fault n (i + 1))

-- Guarded accesses alone lie between two states of the registers.
abbrev pub OnlyGuarded : CsrFile → CsrFile → Type 0
OnlyGuarded f g = (r : ℕ) → r ≢ mstatus → r ≢ mtvec → g r ≡ f r

module _ (env : Platform) (addr : ℕ) where
  abbrev pub load_faults : ℕ → Option ℕ
  load_faults i = env.load_fault true 1 (add32 addr i)

  abbrev pub store_faults : ℕ → Option ℕ
  store_faults i = env.store_fault true 1 (add32 addr i)

  abbrev pub byte_of : (ℕ → ℕ) → ℕ → ℕ
  byte_of mem i = u8 (mem (byte_at env true (add32 addr i) 0))

  -- The first bytes from `addr` on, put together.
  unfoldable pub gathered : (ℕ → ℕ) → ℕ → ℕ
  gathered mem zero = 0
  gathered mem (suc i) = bit_or (gathered mem i) (byte_of mem i << (8 * i))

  -- Memory once the first bytes of `v` are written from `addr` on.
  unfoldable pub scattered : ℕ → (ℕ → ℕ) → ℕ → ℕ → ℕ
  scattered v mem zero = mem
  scattered v mem (suc i) =
      put_byte env true (scattered v mem i) (add32 addr i) (u8 (v >>> (8 * i)))

  abbrev pub LoadEnd : Machine → ℕ → Option (ℕ × ℕ) → Run (Option ℕ) → Type 0
  LoadEnd m len none r =
      (f : CsrFile) × (r ≡ ok (some (gathered m.mem len)) (with_csr m f)) × OnlyGuarded m.csr f
  LoadEnd m len (some (j, cause)) r =
      (f : CsrFile) × (r ≡ ok none (with_csr m (faulted env cause (add32 addr j) f)))
      × OnlyGuarded m.csr f

  LoadEnd-later :
      (m : Machine) (len : ℕ) (o : Option (ℕ × ℕ)) (r : Run (Option ℕ))
      → LoadEnd (with_csr m (guarded env m.csr)) len o r
      → LoadEnd m len o r
  LoadEnd-later m len none r (f, e, s) =
      (f, e, λ x hs ht. s x hs ht ∙ guarded-same env m.csr x hs ht)
  LoadEnd-later m len (some _) r (f, e, s) =
      (f, e, λ x hs ht. s x hs ht ∙ guarded-same env m.csr x hs ht)

  pub load_loop-LoadEnd :
      (n i len : ℕ) (m : Machine)
      → i + n ≡ len
      → LoadEnd m len (first_fault load_faults n i) (load_loop env n i addr (gathered m.mem i) m)
  unfolding load_loop first_fault gathered
  load_loop-LoadEnd zero i len m e =
      let same : i ≡ len = omega arith in rw same (m.csr, refl, λ r hs ht. refl)
  load_loop-LoadEnd (suc n) i len m e = elim (Option-cases (load_faults i)) [
    | inl fine ↦
        rw (fine, read_byte-ok env m (add32 addr i) fine, add-one i)
          (LoadEnd-later m len (first_fault load_faults n (suc i)) _
            (load_loop-LoadEnd n (suc i) len (with_csr m (guarded env m.csr)) (omega arith)))
    | inr (cause, bad) ↦
        rw (bad, read_byte-fault env m (add32 addr i) bad) (m.csr, refl, λ r hs ht. refl)
  ]

  -- After the writes before `i` of the bytes of `v` into `mem`.
  abbrev pub StoreEnd :
      Machine → (ℕ → ℕ) → ℕ → ℕ → Option (ℕ × ℕ) → Run (Option (Unit {0})) → Type 0
  StoreEnd m mem v len none r =
      (f : CsrFile) × (r ≡ ok (some tt) (record m { mem = scattered v mem len; csr = f }))
      × OnlyGuarded m.csr f
  StoreEnd m mem v len (some (j, cause)) r =
      (f : CsrFile) × (r
        ≡ ok none (record m { mem = scattered v mem j; csr = faulted env cause (add32 addr j) f }))
      × OnlyGuarded m.csr f

  StoreEnd-later :
      (m : Machine) (now mem : ℕ → ℕ) (v len : ℕ) (o : Option (ℕ × ℕ)) (r : Run (Option (Unit {0})))
      → StoreEnd (record m { mem = now; csr = guarded env m.csr }) mem v len o r
      → StoreEnd m mem v len o r
  StoreEnd-later m now mem v len none r (f, e, s) =
      (f, e, λ x hs ht. s x hs ht ∙ guarded-same env m.csr x hs ht)
  StoreEnd-later m now mem v len (some _) r (f, e, s) =
      (f, e, λ x hs ht. s x hs ht ∙ guarded-same env m.csr x hs ht)

  pub store_loop-StoreEnd :
      (n i len v : ℕ) (mem : ℕ → ℕ) (m : Machine)
      → i + n ≡ len
      → m.mem ≡ scattered v mem i
      → StoreEnd m mem v len (first_fault store_faults n i) (store_loop env n i addr v m)
  unfolding store_loop first_fault scattered
  store_loop-StoreEnd zero i len v mem m e at =
      let same : i ≡ len = omega arith in rw (← same, ← at) (m.csr, refl, λ r hs ht. refl)
  store_loop-StoreEnd (suc n) i len v mem m e at = elim (Option-cases (store_faults i)) [
    | inl fine ↦
        rw (fine, write_byte-ok env m (add32 addr i) (u8 (v >>> (8 * i))) fine, add-one i)
          (StoreEnd-later m (put_byte env true m.mem (add32 addr i) (u8 (v >>> (8 * i)))) mem v len
            (first_fault store_faults n (suc i)) _
            (store_loop-StoreEnd n (suc i) len v mem _ (omega arith) (rw at)))
    | inr (cause, bad) ↦
        rw (bad, write_byte-fault env m (add32 addr i) (u8 (v >>> (8 * i))) bad, ← at)
          (m.csr, refl, λ r hs ht. refl)
  ]
