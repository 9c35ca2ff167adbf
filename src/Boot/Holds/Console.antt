-- ===== src/Boot/Holds/Console.antt =====
-- The console changes nothing but the devices, and writes no byte to a full transmit buffer: what
-- holds whatever such accesses are made still holds after any of its functions. A 32-bit number
-- fits its buffer.
use qrisc_v.Base.{ℕ, zero, suc, ◌^◌, ◌<◌, List, [], ◌∷◌, ◌++◌}
use qrisc_v.Base.{◌==◌, bit_and, arith}
use qrisc_v.Base.{codes, inl, inr, Bool-cases, add32, u32}
use qrisc_v.Base.{◌≡◌, refl, true, bit, ==_refl}
use qrisc_v.Base.Fields.{bit_and-one_bit}
use qrisc_v.Mmio.{Trace, store, after_read, overruns, found_clear}
use qrisc_v.Boot.Serial.{ulite_rx, ulite_tx, ulite_status}
use qrisc_v.Boot.State.{Platform, Machine}
use qrisc_v.Boot.Holds.{lost, Holds, returns, exits, stalls, Holds-bind}
use qrisc_v.Boot.Serial.{wait_tx, serial_putchar, serial_putstr, serial_haschar, serial_getchar}
use qrisc_v.Boot.Serial.{read_rx, print_digits, serial_putstr_hex}
use qrisc_v.Boot.Assert.{assert_handler}
use qrisc_v.Boot.Serial.Hex.{hex_loop-digits_of, hex_text}

full_test : (v : ℕ) → (bit_and v 8 == 0) ≡ (bit 3 v == 0)
full_test v = rw (bit_and-one_bit 3 v) (ground arith)

module _ (env : Platform) {P : Machine → Type 0}
    (still : (m : Machine) (t : Trace)
      → lost (record m { io = t }) ≡ lost m
      → P m
      → P (record m { io = t })) where
  reading : (m : Machine) (a : ℕ) → P m → P (record m { io = after_read env.answer a m.io })
  unfolding overruns
  reading m a h = still m _ refl h

  -- The last access has shown that there is room.
  abbrev HasRoom : Machine → Type 0
  HasRoom m = found_clear (add32 m.m_uart ulite_status) 3 m.io ≡ true

  wait_tx-Holds : (n : ℕ) (m : Machine) → P m → Holds (λ _ m'. HasRoom m' × P m') (wait_tx env n m)
  unfolding wait_tx found_clear
  wait_tx-Holds zero m h = stalls
  wait_tx-Holds (suc n) m h =
      let a = add32 m.m_uart ulite_status in
      let seen = after_read env.answer a m.io in
      elim (Bool-cases (bit 3 (u32 (env.answer m.io a)) == 0)) [
        | inl room ↦
            rw (full_test (u32 (env.answer m.io a)), room)
              (returns (rw (==_refl a, room), reading m a h))
        | inr full ↦
            rw (full_test (u32 (env.answer m.io a)), full)
              (wait_tx-Holds n (record m { io = seen }) (reading m a h))
      ]

  sending :
      (m : Machine) (c : ℕ)
      → HasRoom m
      → P m
      → P (record m { io = store (add32 m.m_uart ulite_tx) c ∷ m.io })
  unfolding overruns
  sending m c room h = still m _ (rw (==_refl (add32 m.m_uart ulite_tx), room) (omega arith)) h

  pub serial_putchar-Holds :
      (c : ℕ) (m : Machine) → P m → Holds (λ _ m'. P m') (serial_putchar env c m)
  unfolding serial_putchar
  serial_putchar-Holds c m h =
      Holds-bind _ (wait_tx-Holds env.poll_fuel m h) λ _ m' h'. returns (sending m' c h'.0 h'.1)

  pub serial_putstr-Holds :
      (s : List ℕ) (m : Machine) → P m → Holds (λ _ m'. P m') (serial_putstr env s m)
  unfolding serial_putstr
  serial_putstr-Holds [] m h = returns h
  serial_putstr-Holds (c ∷ s) m h = elim (Bool-cases (c == 0)) [
    | inl stop ↦ rw stop (returns h)
    | inr more ↦
        rw more (Holds-bind _ (serial_putchar-Holds c m h) λ _ m' h'. serial_putstr-Holds s m' h')
  ]

  pub serial_putstr_hex-Holds :
      (s : List ℕ) (num : ℕ) (m : Machine)
      → num < 2 ^ 32
      → P m
      → Holds (λ _ m'. P m') (serial_putstr_hex env s num m)
  unfolding serial_putstr_hex print_digits
  serial_putstr_hex-Holds s num m small h =
      rw (hex_loop-digits_of 7 30 num (b'\n' ∷ []) small (omega arith)) (
        Holds-bind _ (serial_putstr-Holds s m h)
          λ _ m' h'. serial_putstr-Holds (hex_text num ++ b'\n' ∷ []) m' h')

  pub serial_haschar-Holds : (m : Machine) → P m → Holds (λ _ m'. P m') (serial_haschar env m)
  unfolding serial_haschar
  serial_haschar-Holds m h = returns (reading m _ h)

  -- A character, or -1.
  pub serial_getchar-Holds :
      (m : Machine) → P m → Holds (λ c m'. (c < 2 ^ 32) × P m') (serial_getchar env m)
  unfolding serial_getchar serial_haschar read_rx
  serial_getchar-Holds m h =
      let a = add32 m.m_uart ulite_status in
      let seen = after_read env.answer a m.io in
      let at = record m { io = seen } in
      elim (Bool-cases (bit_and (u32 (env.answer m.io a)) 1 == 0)) [
        | inl none_there ↦ rw none_there (returns (omega arith, reading m a h))
        | inr there ↦
            rw there (returns (omega arith, reading at (add32 m.m_uart ulite_rx) (reading m a h)))
      ]

  -- A failed assertion does not return.
  pub assert_handler-Holds :
      {A : Type 0} {Q : A → Machine → Type 0} (type reason file : List ℕ) (line : ℕ) (m : Machine)
      → line < 2 ^ 32
      → P m
      → Holds Q (assert_handler env type reason file line m)
  unfolding assert_handler
  assert_handler-Holds type reason file line m small h =
      Holds-bind _ (serial_putstr-Holds (codes "ASSERT: ") m h) λ _ m1 h1.
        Holds-bind _ (serial_putstr-Holds type m1 h1) λ _ m2 h2.
          Holds-bind _ (serial_putstr-Holds (codes " ") m2 h2) λ _ m3 h3.
            Holds-bind _ (serial_putstr-Holds reason m3 h3) λ _ m4 h4.
              Holds-bind _ (serial_putstr-Holds (codes " ") m4 h4) λ _ m5 h5.
                Holds-bind _ (serial_putstr_hex-Holds (codes ":0x") line m5 small h5) λ _ _ _. exits
