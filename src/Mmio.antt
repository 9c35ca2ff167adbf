-- ===== src/Mmio.antt =====
-- Memory-mapped registers, as the boot loader (bootloader/serial.c), the interrupt controller's
-- driver and the SDK read and write them. The devices are the RTL's, not the C code's: what a read
-- answers is a function of all accesses made before it, so any deterministic device together with
-- any outside input is one such function. The accesses made so far are the state.
use qrisc_v.Base.{ℕ, zero, suc, ◌+◌, Bool, true, false, List, [], ◌∷◌, ◌++◌}
use qrisc_v.Base.{◌==◌, ◌&&◌, if◌then◌else◌, u32, bit}

pub data Access : Type 0 where
  -- A read of an address, and the value that it gave.
  load : ℕ → ℕ → Access
  -- A write of a value to an address.
  store : ℕ → ℕ → Access

-- The latest access comes first.
abbrev pub Trace : Type 0
Trace = List Access

-- What a read of an address answers after the given accesses.
abbrev pub Answer : Type 0
Answer = Trace → ℕ → ℕ

-- The values written to an address, the oldest first.
unfoldable pub written : ℕ → Trace → List ℕ
written a [] = []
written a (load b v ∷ t) = written a t
written a (store b v ∷ t) = if b == a then written a t ++ v ∷ [] else written a t

-- The values that reads of an address gave, the oldest first.
unfoldable pub reads : ℕ → Trace → List ℕ
reads a [] = []
reads a (load b v ∷ t) = if b == a then reads a t ++ v ∷ [] else reads a t
reads a (store b v ∷ t) = reads a t

-- The trace ends with a read of `status` that found bit `full` clear.
unfoldable pub found_clear : ℕ → ℕ → Trace → Bool
found_clear status full [] = false
found_clear status full (load b v ∷ t) = b == status && bit full v == 0
found_clear status full (store b v ∷ t) = false

-- How many writes to `tx` do not directly follow a read of `status` that found bit `full` clear.
unfoldable pub overruns : ℕ → ℕ → ℕ → Trace → ℕ
unfolding found_clear
overruns tx status full [] = 0
overruns tx status full (load b v ∷ t) = overruns tx status full t
overruns tx status full (store b v ∷ t) =
    (if b == tx then (if found_clear status full t then 0 else 1) else 0)
    + overruns tx status full t

-- The trace after one more read.
abbrev pub after_read : Answer → ℕ → Trace → Trace
after_read answer a t = load a (u32 (answer t a)) ∷ t

-- Within `n` reads of `status` one finds bit `full` clear.
unfoldable pub clears : Answer → ℕ → ℕ → ℕ → Trace → Bool
clears answer status full zero t = false
clears answer status full (suc n) t =
    let rest = clears answer status full n (after_read answer status t) in
    if bit full (u32 (answer t status)) == 0 then true else rest
