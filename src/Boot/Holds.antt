-- ===== src/Boot/Holds.antt =====
-- Postconditions of runs: what holds of the result and the state if a run returns. A run that ends
-- or stalls meets every postcondition, one with a write outside an array meets none.
pub mod Console
pub mod Emulated
use qrisc_v.Base.{ℕ, ◌≡◌, refl, ◌∙◌, Bool, true, false, Option, none, some, if◌then◌else◌}
use mathlib.Core.Path.{subst}
use qrisc_v.Boot.State.{Platform, Machine, Run, ok, exited, stalled, undefined, M, and_then}
use qrisc_v.Boot.State.{Handler, IrqHandler}
use qrisc_v.Base.{add32}
use qrisc_v.Mmio.{overruns}
use qrisc_v.Boot.Serial.{ulite_tx, ulite_status}
use qrisc_v.Boot.Emulation.Divert.{IsUntouched}

pub data Holds {A : Type 0} (Q : A → Machine → Type 0) : Run A → Type 0 where
  returns : {a : A} {m : Machine} → Q a m → Holds Q (ok a m)
  exits : {code : ℕ} {m : Machine} → Holds Q (exited code m)
  stalls : {m : Machine} → Holds Q (stalled m)

abbrev Post : {A : Type 0} → (A → Machine → Type 0) → Run A → Type 0
Post Q (ok a m) = Q a m
Post Q (exited code m) = Unit
Post Q (stalled m) = Unit
Post Q (undefined m) = ⊥

Holds-Post : {A : Type 0} {Q : A → Machine → Type 0} {r : Run A} → Holds Q r → Post Q r
Holds-Post (returns q) = q
Holds-Post exits = tt
Holds-Post stalls = tt

pub Holds-ok :
    {A : Type 0} {Q : A → Machine → Type 0} {r : Run A} {a : A} {m : Machine}
    → Holds Q r
    → r ≡ ok a m
    → Q a m
Holds-ok {Q} h e = subst (λ r. Post Q r) e (Holds-Post h)

pub Holds-undefined :
    {A : Type 0} {Q : A → Machine → Type 0} {r : Run A} {m : Machine}
    → Holds Q r
    → ¬ (r ≡ undefined m)
Holds-undefined {Q} h e = subst (λ r. Post Q r) e (Holds-Post h)

module _ {A B : Type 0} {Q : A → Machine → Type 0} {R : B → Machine → Type 0} where
  -- One action after another.
  pub Holds-bind :
      {r : Run A} (k : A → M B)
      → Holds Q r
      → ((a : A) (m : Machine) → Q a m → Holds R (k a m))
      → Holds R (and_then r k)
  Holds-bind k (returns q) rest = rest _ _ q
  Holds-bind k exits rest = exits
  Holds-bind k stalls rest = stalls

-- The bytes that were written to a UART whose transmit buffer had not been seen to have room.
abbrev pub lost : Machine → ℕ
lost m = overruns (add32 m.m_uart ulite_tx) (add32 m.m_uart ulite_status) 3 m.io

-- What no handler of an emulated instruction changes of the machine `k` that it was entered with.
pub record Same (k m : Machine) : Type 0 where
  pub table : m.exception_table ≡ k.exception_table
  pub hook : m.irq_handler ≡ k.irq_handler
  pub console : m.m_uart ≡ k.m_uart
  pub regs : (r : ℕ) → IsUntouched r → m.csr r ≡ k.csr r
  pub calm : lost m ≡ lost k

pub Same-refl : (m : Machine) → Same m m
Same-refl m = record { table = refl; hook = refl; console = refl; regs = λ r u. refl; calm = refl }
