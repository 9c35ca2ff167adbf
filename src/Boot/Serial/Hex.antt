-- ===== src/Boot/Serial/Hex.antt =====
-- `serial_putstr_hex` prints the number: hexadecimal digits that read back as it, and few enough
-- for the buffer on the stack.
use qrisc_v.Base.{ℕ, zero, suc, ◌+◌, ◌-◌, ◌*◌, ◌/◌, ◌%◌, ◌^◌, ◌≤◌, ◌<◌, ◌≡◌, refl, ◌∙◌, ap, sym}
use qrisc_v.Base.{
  Bool, true, some, List, [], ◌∷◌, ◌++◌, append_assoc, ◌==◌, ltb, leb, ==_ne, holds_below,
  holds_below_lem, ◌&&◌, ◌||◌,
}
use native.Mathlib.Nat.{pow-suc}
use mathlib.Core.Path.{subst}
use qrisc_v.Base.{inl, inr}
use qrisc_v.Base.{Bool-cases, if◌then◌else◌, length, length-append, All, All-append, arith}
use qrisc_v.Boot.State.{Platform, Machine}
use qrisc_v.Boot.Serial.{hex_digit, hex_loop, serial_putstr, print_digits, serial_putstr_hex}
use qrisc_v.Boot.Serial.Output.{IsReady, until_zero, Printed, Printed-append, serial_putstr-Printed}

-- The digits of a number, the highest first, with as many rounds as there may be digits.
unfoldable pub digits_of : ℕ → ℕ → List ℕ
digits_of zero num = []
digits_of (suc n) num =
    if ltb 0 (num / 16)
    then digits_of n (num / 16) ++ hex_digit (num % 16) ∷ []
    else hex_digit (num % 16) ∷ []

unfoldable pub digit_value : ℕ → ℕ
digit_value c = if ltb c b'a' then c - b'0' else c - b'a' + 10

unfoldable pub hex_value_from : ℕ → List ℕ → ℕ
hex_value_from acc [] = acc
hex_value_from acc (c ∷ s) = hex_value_from (acc * 16 + digit_value c) s

-- 0 to 9 and a to f.
abbrev pub is_hex_digit : ℕ → Bool
is_hex_digit c = (leb b'0' c && leb c b'9') || (leb b'a' c && leb c b'f')

abbrev pub IsHexDigit : ℕ → Type 0
IsHexDigit c = is_hex_digit c ≡ true

digit_test : ℕ → Bool
digit_test d = (digit_value (hex_digit d) == d) && is_hex_digit (hex_digit d)

digit_table : holds_below digit_test 16 ≡ true
unfolding holds_below digit_test digit_value hex_digit
digit_table = refl

hex_digit_lem : (d : ℕ) → d < 16 → (digit_value (hex_digit d) ≡ d) × IsHexDigit (hex_digit d)
unfolding digit_test
hex_digit_lem d h =
    let tested : digit_test d ≡ true = holds_below_lem digit_test 16 d digit_table h in ground arith

hex_value_from-append :
    (acc : ℕ) (s : List ℕ) (c : ℕ)
    → hex_value_from acc (s ++ c ∷ []) ≡ hex_value_from acc s * 16 + digit_value c
unfolding hex_value_from
hex_value_from-append acc [] c = refl
hex_value_from-append acc (d ∷ s) c = hex_value_from-append (acc * 16 + digit_value d) s c

pow-16 : (n : ℕ) → 16 ^ suc n ≡ 16 ^ n * 16
pow-16 n = pow-suc 16 n

-- What the digits of a number are: they read back as it, they fit, and they are digits.
pub record IsDigits (n num : ℕ) (s : List ℕ) : Type 0 where
  pub reads_back : hex_value_from 0 s ≡ num
  pub fits : length s ≤ n
  pub digits : All IsHexDigit s

digits_of-IsDigits : (n num : ℕ) → num < 16 ^ suc n → IsDigits (suc n) num (digits_of (suc n) num)
unfolding digits_of hex_value_from
digits_of-IsDigits zero num h =
    let small : num / 16 ≡ 0 = omega (arith, pow-16 0) in
    let low = hex_digit_lem (num % 16) (omega arith) in
    rw small (record { reads_back = omega arith; fits = omega arith; digits = (low.1, tt) })
digits_of-IsDigits (suc n) num h = elim (Bool-cases (ltb 0 (num / 16))) [
  | inl more ↦
      let rest = digits_of-IsDigits n (num / 16) (omega (arith, pow-16 (suc n))) in
      rw more (record {
        reads_back = omega (
          arith,
          hex_value_from-append 0 (digits_of (suc n) (num / 16)) (hex_digit (num % 16)),
          rest.reads_back,
          low.0,
        );
        fits = omega (
          arith,
          length-append (digits_of (suc n) (num / 16)) (hex_digit (num % 16) ∷ []),
          rest.fits,
        );
        digits = All-append IsHexDigit _ _ rest.digits (low.1, tt);
      })
  | inr last ↦
      rw last
        (record { reads_back = ground (arith, low.0); fits = omega arith; digits = (low.1, tt) })
]
  where
    low : (digit_value (hex_digit (num % 16)) ≡ num % 16) × IsHexDigit (hex_digit (num % 16))
    low = hex_digit_lem (num % 16) (omega arith)

pub hex_loop-digits_of :
    (n room num : ℕ) (out : List ℕ)
    → num < 16 ^ suc n
    → n < room
    → hex_loop room num out ≡ some (digits_of (suc n) num ++ out)
unfolding hex_loop digits_of
hex_loop-digits_of n zero num out h r = absurd (omega arith)
hex_loop-digits_of zero (suc room) num out h r =
    let small : num / 16 ≡ 0 = omega (arith, pow-16 0) in rw small
hex_loop-digits_of (suc n) (suc room) num out h r = elim (Bool-cases (ltb 0 (num / 16))) [
  | inl more ↦ rw more (
      hex_loop-digits_of n room (num / 16) (hex_digit (num % 16) ∷ out)
        (omega (arith, pow-16 (suc n))) (omega arith)
      ∙ ap some (sym (append_assoc _ (hex_digit (num % 16) ∷ []) out)))
  | inr last ↦ rw last
]

until_zero-digits : (s : List ℕ) → All IsHexDigit s → until_zero (s ++ b'\n' ∷ []) ≡ s ++ b'\n' ∷ []
unfolding until_zero
until_zero-digits [] h = refl
until_zero-digits (c ∷ s) h =
    let first = h.0 in
    rw (==_ne c 0 (ground (arith, first))) (ap (λ (l : List ℕ). c ∷ l) (until_zero-digits s h.1))

-- The digits that are printed of a number.
abbrev pub hex_text : ℕ → List ℕ
hex_text num = digits_of 8 num

pub hex_text-IsDigits : (num : ℕ) → num < 2 ^ 32 → IsDigits 8 num (hex_text num)
hex_text-IsDigits num h = digits_of-IsDigits 7 num h

pub serial_putstr_hex-hex_text :
    (env : Platform) (str : List ℕ) (num : ℕ) (m : Machine)
    → num < 2 ^ 32
    → IsReady env m.m_uart
    → Printed
        (until_zero str ++ (hex_text num ++ b'\n' ∷ []))
        tt
        m
        (serial_putstr_hex env str num m)
unfolding serial_putstr_hex print_digits
serial_putstr_hex-hex_text env str num m h ready =
    rw (hex_loop-digits_of 7 30 num (b'\n' ∷ []) h (omega arith)) (
      Printed-append (λ _. serial_putstr env (hex_text num ++ b'\n' ∷ []))
        (serial_putstr-Printed env str m ready)
        λ m' same.
          subst (λ t. Printed t tt m' (serial_putstr env (hex_text num ++ b'\n' ∷ []) m'))
            (until_zero-digits (hex_text num) (hex_text-IsDigits num h).digits)
            (serial_putstr-Printed env _ m' (rw same ready)))

-- With a UART that is ready, the text is printed, then the 32-bit number in hexadecimal, at most
-- eight digits, each of 0 to 9 or a to f, that read back as it, and a newline.
pub serial_putstr_hex-Printed :
    (env : Platform) (str : List ℕ) (num : ℕ) (m : Machine)
    → num < 2 ^ 32
    → IsReady env m.m_uart
    → (digits : List ℕ) × IsDigits 8 num digits
      × Printed (until_zero str ++ (digits ++ b'\n' ∷ [])) tt m (serial_putstr_hex env str num m)
serial_putstr_hex-Printed env str num m h ready =
    (hex_text num, hex_text-IsDigits num h, serial_putstr_hex-hex_text env str num m h ready)
