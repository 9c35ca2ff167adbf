-- ===== src/Boot/Assert.antt =====
-- bootloader/assert.c: a failed assertion prints its kind, text and line (the file name is dropped)
-- and ends the run. `_exit(-1)` leaves the code 0xffffffff in the argument register.
pub mod Report
use qrisc_v.Base.{ℕ, List, codes}
use qrisc_v.Boot.State.{Platform, M, exit, ◌>>◌}
use qrisc_v.Boot.Serial.{serial_putstr, serial_putstr_hex, minus_one}

abbrev pub failure : ℕ
failure = minus_one

module _ (env : Platform) where
  unfoldable pub assert_handler : {A : Type 0} → List ℕ → List ℕ → List ℕ → ℕ → M A
  assert_handler type reason file line = do
    serial_putstr env (codes "ASSERT: ")
    serial_putstr env type
    serial_putstr env (codes " ")
    serial_putstr env reason
    serial_putstr env (codes " ")
    serial_putstr_hex env (codes ":0x") line
    exit failure

  -- The macro `assert(!"...")`, which always fails.
  unfoldable pub assert_fail : {A : Type 0} → List ℕ → List ℕ → ℕ → M A
  unfolding assert_handler
  assert_fail reason file line = assert_handler (codes "ASSERT") reason file line

  -- The macro `panic`, which the loader does not use.
  unfoldable pub panic : {A : Type 0} → List ℕ → List ℕ → ℕ → M A
  unfolding assert_handler
  panic reason file line = assert_handler (codes "PANIC") reason file line
