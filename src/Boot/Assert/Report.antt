-- ===== src/Boot/Assert/Report.antt =====
-- What a failed assertion prints before the run ends.
use qrisc_v.Base.{ℕ, ◌<◌, ◌^◌, List, [], ◌∷◌, ◌++◌, codes}
use qrisc_v.Boot.State.{Platform, Machine, M, and_then}
use qrisc_v.Boot.Serial.{serial_putstr}
use qrisc_v.Boot.Serial.Output.{IsReady, until_zero, Halted, Halted-exit, Halted-append}
use qrisc_v.Boot.Serial.Output.{serial_putstr-Printed}
use qrisc_v.Boot.Serial.Hex.{hex_text, serial_putstr_hex-hex_text}
use qrisc_v.Boot.Assert.{failure, assert_handler}

-- A text up to its first zero, before another.
infixr 20 ◌then◌
abbrev pub ◌then◌ : List ℕ → List ℕ → List ℕ
s then t = until_zero s ++ t

-- The kind, the text and the line.
abbrev pub report : List ℕ → List ℕ → ℕ → List ℕ
report type reason line =
    codes "ASSERT: "
    then type
    then codes " "
    then reason
    then codes " "
    then codes ":0x"
    then (hex_text line ++ b'\n' ∷ [])

module _ (env : Platform) {A : Type 0} where
  -- One more text before the end.
  then-Halted :
      {t : List ℕ} {code : ℕ} (s : List ℕ) (k : Unit {0} → M A) (m : Machine)
      → IsReady env m.m_uart
      → ((m' : Machine) → IsReady env m'.m_uart → Halted t code m' (k tt m'))
      → Halted (s then t) code m (and_then (serial_putstr env s m) k)
  then-Halted s k m ready rest =
      Halted-append k (serial_putstr-Printed env s m ready) λ m' same. rest m' (rw same ready)

  -- With a UART that is ready, a failed assertion prints its kind, its text and the line in
  -- hexadecimal, and ends the run with the exit code -1.
  pub assert_handler-Halted :
      (type reason file : List ℕ) (line : ℕ) (m : Machine)
      → line < 2 ^ 32
      → IsReady env m.m_uart
      → Halted
          (report type reason line)
          failure
          m
          (assert_handler env {A = A} type reason file line m)
  unfolding assert_handler
  assert_handler-Halted type reason file line m h ready =
      then-Halted (codes "ASSERT: ") _ m ready λ m1 r1. then-Halted type _ m1 r1 λ m2 r2.
        then-Halted (codes " ") _ m2 r2 λ m3 r3. then-Halted reason _ m3 r3 λ m4 r4.
          then-Halted (codes " ") _ m4 r4
            λ m5 r5. Halted-exit failure (serial_putstr_hex-hex_text env (codes ":0x") line m5 h r5)
