-- ===== src/Base/Bits.antt =====
-- The bits of a number, and `&`, `|` and `^` bit by bit.
use Prim.Native.Nat.{ℕ, zero, suc, ◌+◌, ◌*◌, ◌/◌, ◌%◌, ◌≤◌, ◌<◌, min, max}
use Prim.Native.Nat.{bit_and, bit_or, digits, bitwise}
use Prim.Native.Nat.{bit_and-bitwise, bit_or-bitwise}
use mathlib.Core.Path.{◌≡◌, refl}
use native.Mathlib.Omega.{arith}

-- Bit `k`, counted from the lowest.
abbrev pub bit : ℕ → ℕ → ℕ
bit zero x = x % 2
bit (suc k) x = bit k (x / 2)

pub bit-lt : (k x : ℕ) → bit k x < 2
bit-lt zero x = omega arith
bit-lt (suc k) x = bit-lt k (x / 2)

-- The meaning of the native operations is a recursion on a count of digits; any count that
-- reaches the last digit gives the same number.
module _ (rest : ℕ → ℕ) (op : ℕ → ℕ → ℕ) where
  digits-stable : (i j a b : ℕ) → a ≤ i → a ≤ j → digits rest op i a b ≡ digits rest op j a b
  digits-stable i zero zero b hi hj = digits-zero i b
    where
      digits-zero : (n b : ℕ) → digits rest op n 0 b ≡ rest b
      digits-zero zero b = refl
      digits-zero (suc n) b = refl
  digits-stable zero (suc j) zero b hi hj = refl
  digits-stable (suc i) (suc j) zero b hi hj = refl
  digits-stable zero j (suc a) b hi hj = absurd (omega arith)
  digits-stable (suc i) zero (suc a) b hi hj = absurd (omega arith)
  digits-stable (suc i) (suc j) (suc a) b hi hj =
      rw (digits-stable i j (suc a / 2) (b / 2) (omega arith) (omega arith))

  bitwise-unroll :
      (a b : ℕ)
      → bitwise rest op (suc a) b ≡ bitwise rest op (suc a / 2) (b / 2) * 2 + op (suc a % 2) (b % 2)
  bitwise-unroll a b =
      rw (digits-stable a (suc a / 2) (suc a / 2) (b / 2) (omega arith) (omega arith))

pub bit_and-unroll : (a b : ℕ) → bit_and a b ≡ bit_and (a / 2) (b / 2) * 2 + min (a % 2) (b % 2)
bit_and-unroll zero b = simp bit_and-bitwise (omega arith)
bit_and-unroll (suc a) b = simp bit_and-bitwise (bitwise-unroll (λ _. 0) min a b)

pub bit_or-unroll : (a b : ℕ) → bit_or a b ≡ bit_or (a / 2) (b / 2) * 2 + max (a % 2) (b % 2)
bit_or-unroll zero b = simp bit_or-bitwise (omega arith)
bit_or-unroll (suc a) b = simp bit_or-bitwise (bitwise-unroll (λ y. y) max a b)

pub bit-bit_and : (k a b : ℕ) → bit k (bit_and a b) ≡ min (bit k a) (bit k b)
bit-bit_and zero a b = omega (arith, bit_and-unroll a b)
bit-bit_and (suc k) a b =
    let halves : bit_and a b / 2 ≡ bit_and (a / 2) (b / 2) = omega (arith, bit_and-unroll a b) in
    rw halves (bit-bit_and k (a / 2) (b / 2))

pub bit-bit_or : (k a b : ℕ) → bit k (bit_or a b) ≡ max (bit k a) (bit k b)
bit-bit_or zero a b = omega (arith, bit_or-unroll a b)
bit-bit_or (suc k) a b =
    let halves : bit_or a b / 2 ≡ bit_or (a / 2) (b / 2) = omega (arith, bit_or-unroll a b) in
    rw halves (bit-bit_or k (a / 2) (b / 2))
