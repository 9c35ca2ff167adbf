-- ===== src/Base/Word.antt =====
-- `uint32_t` and `uint8_t` as native numbers: the wrap-around and the shifts of C.
use Prim.Native.Nat.{ℕ, ◌+◌, ◌-◌, ◌*◌, ◌/◌, ◌%◌, ◌^◌}

abbrev pub u32_mod : ℕ
u32_mod = 2 ^ 32

abbrev pub u8 : ℕ → ℕ
u8 n = n % 2 ^ 8

abbrev pub u32 : ℕ → ℕ
u32 n = n % 2 ^ 32

abbrev pub add32 : ℕ → ℕ → ℕ
add32 a b = (a + b) % 2 ^ 32

-- A length in whole words.
abbrev pub rounded : ℕ → ℕ
rounded length = (length + 3) / 4 * 4

-- `~x` of a 32-bit x.
abbrev pub not32 : ℕ → ℕ
not32 x = 2 ^ 32 - 1 - x

infixl 75 ◌<<◌ ◌>>>◌
-- A left shift of a `uint32_t` drops what leaves the word.
abbrev pub ◌<<◌ : ℕ → ℕ → ℕ
x << k = x * 2 ^ k % 2 ^ 32

abbrev pub ◌>>>◌ : ℕ → ℕ → ℕ
x >>> k = x / 2 ^ k
