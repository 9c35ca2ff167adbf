-- ===== src/Base/Fields.antt =====
-- `&` and `|` with masks as arithmetic: a low mask is a remainder, a `|` of disjoint fields a sum.
use Prim.Native.Nat.{ℕ, zero, suc, ◌+◌, ◌-◌, ◌*◌, ◌/◌, ◌%◌, ◌^◌, ◌≤◌, ◌<◌, bit_and, bit_or}
use Prim.Native.Nat.{bit_and-bitwise, bit_or-bitwise}
use mathlib.Core.Path.{◌≡◌, ap}
use native.Mathlib.Omega.{arith}
use native.Mathlib.Nat.{pow-suc, one-le-pow}
use qrisc_v.Base.Bits.{bit, bit_and-unroll, bit_or-unroll}

double-field : (q k : ℕ) → q * 2 ^ suc k ≡ 2 * (q * 2 ^ k)
double-field q k = omega (arith, ap (λ (t : ℕ). q * t) (pow-suc 2 k))

pub zero-bit_and : (b : ℕ) → bit_and 0 b ≡ 0
zero-bit_and b = bit_and-bitwise 0 b

zero-bit_or : (b : ℕ) → bit_or 0 b ≡ b
zero-bit_or b = bit_or-bitwise 0 b

bit_and-zero_below : (n a : ℕ) → a ≤ n → bit_and a 0 ≡ 0
bit_and-zero_below zero a h = let e : a ≡ 0 = omega arith in rw (e, zero-bit_and)
bit_and-zero_below (suc n) zero h = zero-bit_and 0
bit_and-zero_below (suc n) (suc a) h =
    omega (arith, bit_and-unroll (suc a) 0, bit_and-zero_below n (suc a / 2) (omega arith))

pub bit_and-zero : (a : ℕ) → bit_and a 0 ≡ 0
bit_and-zero a = bit_and-zero_below a a (omega arith)

bit_or-zero_below : (n a : ℕ) → a ≤ n → bit_or a 0 ≡ a
bit_or-zero_below zero a h = let e : a ≡ 0 = omega arith in rw (e, zero-bit_or)
bit_or-zero_below (suc n) zero h = zero-bit_or 0
bit_or-zero_below (suc n) (suc a) h =
    omega (arith, bit_or-unroll (suc a) 0, bit_or-zero_below n (suc a / 2) (omega arith))

pub bit_or-zero : (a : ℕ) → bit_or a 0 ≡ a
bit_or-zero a = bit_or-zero_below a a (omega arith)

-- Both operations act on a high field and on `k` low bits apart.
pub bit_and_split :
    (k q p r s : ℕ)
    → r < 2 ^ k
    → s < 2 ^ k
    → bit_and (q * 2 ^ k + r) (p * 2 ^ k + s) ≡ bit_and q p * 2 ^ k + bit_and r s
bit_and_split zero q p r s hr hs =
    let er : r ≡ 0 = omega arith in
    let es : s ≡ 0 = omega arith in
    let eq : q * 2 ^ 0 + r ≡ q = omega arith in
    let ep : p * 2 ^ 0 + s ≡ p = omega arith in rw (eq, ep, er, es, zero-bit_and) (omega arith)
bit_and_split (suc k) q p r s hr hs = ground (
  arith,
  double-field q k,
  double-field p k,
  double-field (bit_and q p) k,
  bit_and-unroll (q * 2 ^ suc k + r) (p * 2 ^ suc k + s),
  bit_and-unroll r s,
  pow-suc 2 k,
  bit_and_split k q p (r / 2) (s / 2),
)

pub bit_or_split :
    (k q p r s : ℕ)
    → r < 2 ^ k
    → s < 2 ^ k
    → bit_or (q * 2 ^ k + r) (p * 2 ^ k + s) ≡ bit_or q p * 2 ^ k + bit_or r s
bit_or_split zero q p r s hr hs =
    let er : r ≡ 0 = omega arith in
    let es : s ≡ 0 = omega arith in
    let eq : q * 2 ^ 0 + r ≡ q = omega arith in
    let ep : p * 2 ^ 0 + s ≡ p = omega arith in rw (eq, ep, er, es, zero-bit_or) (omega arith)
bit_or_split (suc k) q p r s hr hs = ground (
  arith,
  double-field q k,
  double-field p k,
  double-field (bit_or q p) k,
  bit_or-unroll (q * 2 ^ suc k + r) (p * 2 ^ suc k + s),
  bit_or-unroll r s,
  pow-suc 2 k,
  bit_or_split k q p (r / 2) (s / 2),
)

-- A `|` of a low field and a shifted one is their sum.
pub bit_or_disjoint : (k r q : ℕ) → r < 2 ^ k → bit_or r (q * 2 ^ k) ≡ q * 2 ^ k + r
bit_or_disjoint k r q h =
    let positive : 0 < 2 ^ k = one-le-pow k 2 (omega arith) in
    let e : bit_or (0 * 2 ^ k + r) (q * 2 ^ k + 0) ≡ bit_or 0 q * 2 ^ k + bit_or r 0 =
      bit_or_split k 0 q r 0 h positive in
    omega (
      arith,
      ap (λ (x : ℕ). bit_or x (q * 2 ^ k + 0)) (left r),
      ap (λ (x : ℕ). bit_or r x) (right (q * 2 ^ k)),
      e,
      zero-bit_or q,
      bit_or-zero r,
      ap (λ (x : ℕ). x * 2 ^ k) (zero-bit_or q),
    )
  where
    left : (x : ℕ) → 0 * 2 ^ k + x ≡ x
    left x = omega arith

    right : (x : ℕ) → x + 0 ≡ x
    right x = omega arith

bit_and-ones : (k r : ℕ) → r < 2 ^ k → bit_and r (2 ^ k - 1) ≡ r
bit_and-ones zero r h = let e : r ≡ 0 = omega arith in rw (e, zero-bit_and)
bit_and-ones (suc k) r h =
    let half : (2 ^ suc k - 1) / 2 ≡ 2 ^ k - 1 = omega (arith, pow-suc 2 k, one-le-pow k 2) in
    let low : (2 ^ suc k - 1) % 2 ≡ 1 = omega (arith, pow-suc 2 k, one-le-pow k 2) in
    let smaller : r / 2 < 2 ^ k = omega (arith, pow-suc 2 k) in
    rw (bit_and-unroll r (2 ^ suc k - 1), half, low, bit_and-ones k (r / 2) smaller) (omega arith)

-- A mask of a high part and `k` low ones.
pub bit_and_mask :
    (k a q : ℕ) → bit_and a (q * 2 ^ k + (2 ^ k - 1)) ≡ bit_and (a / 2 ^ k) q * 2 ^ k + a % 2 ^ k
bit_and_mask k a q =
    let positive : 0 < 2 ^ k = one-le-pow k 2 (omega arith) in
    let parts : a ≡ a / 2 ^ k * 2 ^ k + a % 2 ^ k = grind arith in
    let low : a % 2 ^ k < 2 ^ k = grind arith in
    let ones : 2 ^ k - 1 < 2 ^ k = omega arith in
    let e = bit_and_split k (a / 2 ^ k) q (a % 2 ^ k) (2 ^ k - 1) low ones in
    omega (
      arith,
      ap (λ (x : ℕ). bit_and x (q * 2 ^ k + (2 ^ k - 1))) parts,
      e,
      bit_and-ones k (a % 2 ^ k) low,
    )

-- A mask of `k` ones takes the remainder by 2 ^ k.
pub bit_and_low : (k a : ℕ) → bit_and a (2 ^ k - 1) ≡ a % 2 ^ k
bit_and_low k a = omega (
  arith,
  bit_and_mask k a 0,
  ap (λ (x : ℕ). x * 2 ^ k) (bit_and-zero (a / 2 ^ k)),
  ap (λ (x : ℕ). bit_and a x) (no_high (2 ^ k - 1)),
)
  where
    no_high : (x : ℕ) → 0 * 2 ^ k + x ≡ x
    no_high x = omega arith

-- A mask of one bit keeps that bit.
pub bit_and-one_bit : (k a : ℕ) → bit_and a (2 ^ k) ≡ bit k a * 2 ^ k
bit_and-one_bit zero a = omega (arith, bit_and-unroll a 1, bit_and-zero (a / 2))
bit_and-one_bit (suc k) a =
    let half : 2 ^ suc k / 2 ≡ 2 ^ k = omega (arith, pow-suc 2 k) in
    let low : 2 ^ suc k % 2 ≡ 0 = omega (arith, pow-suc 2 k) in
    rw (bit_and-unroll a (2 ^ suc k), half, low, bit_and-one_bit k (a / 2))
      (omega (arith, double-field (bit k (a / 2)) k))

bit_and_idem_below : (n a b : ℕ) → a ≤ n → bit_and (bit_and a b) b ≡ bit_and a b
bit_and_idem_below n zero b h = rw (zero-bit_and b, zero-bit_and b)
bit_and_idem_below zero (suc a) b h = absurd (omega arith)
bit_and_idem_below (suc n) (suc a) b h =
    let step = bit_and-unroll (suc a) b in
    let half : bit_and (suc a) b / 2 ≡ bit_and (suc a / 2) (b / 2) = omega (arith, step) in
    let rest = bit_and_idem_below n (suc a / 2) (b / 2) (omega arith) in
    omega (
      arith,
      step,
      bit_and-unroll (bit_and (suc a) b) b,
      ap (λ (x : ℕ). bit_and x (b / 2)) half,
      rest,
    )

-- Masking twice is masking once.
pub bit_and_idem : (a b : ℕ) → bit_and (bit_and a b) b ≡ bit_and a b
bit_and_idem a b = bit_and_idem_below a a b (omega arith)

-- Words of `k` bits stay so under `|`.
pub bit_or-lt : (k a b : ℕ) → a < 2 ^ k → b < 2 ^ k → bit_or a b < 2 ^ k
bit_or-lt zero a b ha hb =
    let ea : a ≡ 0 = omega arith in let eb : b ≡ 0 = omega arith in rw (ea, eb) (omega arith)
bit_or-lt (suc k) a b ha hb =
    let half =
      bit_or-lt k (a / 2) (b / 2) (omega (arith, pow-suc 2 k)) (omega (arith, pow-suc 2 k)) in
    omega (arith, pow-suc 2 k, bit_or-unroll a b, half)
