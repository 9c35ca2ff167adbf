-- ===== src/Boot/Serial/Output.antt =====
-- What the console prints: the bytes that reach the UART, in order, none of them lost to a full
-- transmit buffer.
use qrisc_v.Base.{ℕ, zero, suc, ◌^◌, ◌≡◌, refl, true, ap, ◌∙◌, sym, inl, inr}
use qrisc_v.Base.{List, [], ◌∷◌, ◌++◌, append_assoc, append-nil, ◌==◌, ==_refl, Bool-cases}
use qrisc_v.Base.{if◌then◌else◌, bit_and, u32, add32, arith, bit}
use qrisc_v.Base.Fields.{bit_and-one_bit}
use qrisc_v.Mmio.{Trace, store, written, found_clear, overruns, after_read, clears}
use qrisc_v.Boot.State.{Platform, Machine, Run, ok, exited, M, and_then}
use qrisc_v.Boot.Serial.{ulite_tx, ulite_status, wait_tx, serial_putchar, serial_putstr}

-- The transmit buffer always drains: within the fuel, a read of the status finds room.
abbrev pub IsReady : Platform → ℕ → Type 0
IsReady env base =
    (t : Trace) → clears env.answer (add32 base ulite_status) 3 env.poll_fuel t ≡ true

-- The part of a C string before its first zero.
unfoldable pub until_zero : List ℕ → List ℕ
until_zero [] = []
until_zero (c ∷ s) = if c == 0 then [] else c ∷ until_zero s

-- A run that returns `a`, sends exactly the bytes `s`, and changes nothing but the trace.
pub record Printed {A : Type 0} (s : List ℕ) (a : A) (m : Machine) (r : Run A) : Type 0 where
  pub trace : Trace
  pub returns : r ≡ ok a (record m { io = trace })
  pub sent : written (add32 m.m_uart ulite_tx) trace ≡ written (add32 m.m_uart ulite_tx) m.io ++ s
  pub no_overrun :
      overruns (add32 m.m_uart ulite_tx) (add32 m.m_uart ulite_status) 3 trace
      ≡ overruns (add32 m.m_uart ulite_tx) (add32 m.m_uart ulite_status) 3 m.io

pub Printed-nothing : {A : Type 0} (a : A) (m : Machine) → Printed [] a m (ok a m)
Printed-nothing a m = record {
  trace = m.io;
  returns = refl;
  sent = sym (append-nil _);
  no_overrun = refl;
}

-- One output after another.
pub Printed-append :
    {A B : Type 0} {s t : List ℕ} {a : A} {b : B} {m : Machine} {r : Run A} (k : A → M B)
    → Printed s a m r
    → ((m' : Machine) → m'.m_uart ≡ m.m_uart → Printed t b m' (k a m'))
    → Printed (s ++ t) b m (and_then r k)
Printed-append {s} {t} {a} {b} {m} k p q = record {
  trace = rest.trace;
  returns = rw p.returns rest.returns;
  sent = rest.sent ∙ ap (λ (l : List ℕ). l ++ t) p.sent ∙ append_assoc _ s t;
  no_overrun = rest.no_overrun ∙ p.no_overrun;
}
  where
    rest : Printed t b (record m { io = p.trace }) (k a (record m { io = p.trace }))
    rest = q (record m { io = p.trace }) refl

-- A run that sends the bytes `s` and ends with an exit code.
pub record Halted {A : Type 0} (s : List ℕ) (code : ℕ) (m : Machine) (r : Run A) : Type 0 where
  pub trace : Trace
  pub halts : r ≡ exited code (record m { io = trace })
  pub sent : written (add32 m.m_uart ulite_tx) trace ≡ written (add32 m.m_uart ulite_tx) m.io ++ s
  pub no_overrun :
      overruns (add32 m.m_uart ulite_tx) (add32 m.m_uart ulite_status) 3 trace
      ≡ overruns (add32 m.m_uart ulite_tx) (add32 m.m_uart ulite_status) 3 m.io

pub Halted-exit :
    {A B : Type 0} {s : List ℕ} {a : A} (code : ℕ) {m : Machine} {r : Run A}
    → Printed s a m r
    → Halted {A = B} s code m (and_then r λ _. exited code)
Halted-exit code p = record {
  trace = p.trace;
  halts = rw p.returns;
  sent = p.sent;
  no_overrun = p.no_overrun;
}

-- An output before the last ones.
pub Halted-append :
    {A B : Type 0} {s t : List ℕ} {a : A} {code : ℕ} {m : Machine} {r : Run A} (k : A → M B)
    → Printed s a m r
    → ((m' : Machine) → m'.m_uart ≡ m.m_uart → Halted t code m' (k a m'))
    → Halted (s ++ t) code m (and_then r k)
Halted-append {s} {t} {a} {code} {m} k p q = record {
  trace = rest.trace;
  halts = rw p.returns rest.halts;
  sent = rest.sent ∙ ap (λ (l : List ℕ). l ++ t) p.sent ∙ append_assoc _ s t;
  no_overrun = rest.no_overrun ∙ p.no_overrun;
}
  where
    rest : Halted t code (record m { io = p.trace }) (k a (record m { io = p.trace }))
    rest = q (record m { io = p.trace }) refl

-- The end of a wait.
record Waited (m : Machine) (r : Run (Unit {0})) : Type 0 where
  trace : Trace
  returns : r ≡ ok tt (record m { io = trace })
  same : written (add32 m.m_uart ulite_tx) trace ≡ written (add32 m.m_uart ulite_tx) m.io
  clear : found_clear (add32 m.m_uart ulite_status) 3 trace ≡ true
  no_overrun :
      overruns (add32 m.m_uart ulite_tx) (add32 m.m_uart ulite_status) 3 trace
      ≡ overruns (add32 m.m_uart ulite_tx) (add32 m.m_uart ulite_status) 3 m.io

mask_test : (v : ℕ) → (bit_and v (2 ^ 3) == 0) ≡ (bit 3 v == 0)
mask_test v = rw (bit_and-one_bit 3 v) (ground arith)

module _ (env : Platform) where
  wait_tx-Waited :
      (n : ℕ) (m : Machine)
      → clears env.answer (add32 m.m_uart ulite_status) 3 n m.io ≡ true
      → Waited m (wait_tx env n m)
  unfolding wait_tx clears written overruns
  wait_tx-Waited zero m h = cc
  wait_tx-Waited (suc n) m h = elim (Bool-cases (bit 3 (seen) == 0)) [
    | inl room ↦
        rw (mask_test seen, room)
          (record {
            trace = after_read env.answer status m.io;
            returns = refl;
            same = refl;
            clear = rw (==_refl status, room);
            no_overrun = refl;
          })
    | inr full ↦
        rw (mask_test seen, full)
          (later
            (wait_tx-Waited n (record m { io = after_read env.answer status m.io }) (rw full at h)))
  ]
    where
      status : ℕ
      status = add32 m.m_uart ulite_status

      seen : ℕ
      seen = u32 (env.answer m.io status)

      later :
          {r : Run (Unit {0})}
          → Waited (record m { io = after_read env.answer status m.io }) r
          → Waited m r
      later w = record {
        trace = w.trace;
        returns = w.returns;
        same = w.same;
        clear = w.clear;
        no_overrun = w.no_overrun;
      }

  -- A character is sent once the status has shown room for it.
  pub serial_putchar-Printed :
      (c : ℕ) (m : Machine) → IsReady env m.m_uart → Printed (c ∷ []) 0 m (serial_putchar env c m)
  unfolding serial_putchar written overruns
  serial_putchar-Printed c m ready = record {
    trace = store (add32 m.m_uart ulite_tx) c ∷ w.trace;
    returns = rw w.returns;
    sent = rw (==_refl (add32 m.m_uart ulite_tx)) (ap (λ (l : List ℕ). l ++ c ∷ []) w.same);
    no_overrun = rw (==_refl (add32 m.m_uart ulite_tx), w.clear) (omega (arith, w.no_overrun));
  }
    where
      w : Waited m (wait_tx env env.poll_fuel m)
      w = wait_tx-Waited env.poll_fuel m (ready m.io)

  -- With a UART that is ready, a string is sent up to its first zero, and no byte is written while
  -- the transmit buffer is full.
  pub serial_putstr-Printed :
      (s : List ℕ) (m : Machine)
      → IsReady env m.m_uart
      → Printed (until_zero s) tt m (serial_putstr env s m)
  unfolding serial_putstr until_zero
  serial_putstr-Printed [] m ready = Printed-nothing tt m
  serial_putstr-Printed (c ∷ s) m ready = elim (Bool-cases (c == 0)) [
    | inl stop ↦ rw stop (Printed-nothing tt m)
    | inr more ↦ rw more (
        Printed-append (λ _. serial_putstr env s) (serial_putchar-Printed c m ready)
          λ m' same. serial_putstr-Printed s m' (rw same ready))
  ]
