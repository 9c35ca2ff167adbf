-- ===== src/Sdk/Uart.antt =====
-- What the SDK prints (sdk/baremetal/bm.h).
use qrisc_v.Base.{ℕ, zero, suc, ◌*◌, ◌%◌, ◌^◌, ◌<◌, ◌≡◌, refl, sym, ap, ◌∙◌, inl, inr}
use qrisc_v.Base.{◌≢◌, false, true, Option, some, List, [], ◌∷◌, ◌++◌, append_assoc}
use qrisc_v.Base.{append-nil, codes, length, ◌==◌, ==_refl, Bool-cases, if◌then◌else◌, bit, bit_and}
use native.Mathlib.Nat.{pow-suc}
use mathlib.Core.Path.{subst}
use qrisc_v.Base.{bit-lt, u8, u32, ◌>>>◌, arith}
use qrisc_v.Base.Fields.{bit_and-one_bit, bit_and_low}
use qrisc_v.Mmio.{Trace, Answer, store, written, reads, found_clear, overruns, after_read, clears}
use qrisc_v.Boot.Serial.Hex.{hex_value_from, digit_value, IsHexDigit}
use qrisc_v.Base.{All}
use qrisc_v.Sdk.{spi_drr}
use qrisc_v.Sdk.Journal.{journal}
use qrisc_v.Sdk.{uart_tx, uart_status, and_on, nib_char, wait_clear, uart_putc, uart_puts, put_nibs}
use qrisc_v.Sdk.{uart_puthex}

-- The end of a wait: nothing is written, and the last access found the flag clear.
pub record Cleared (status flag : ℕ) (t : Trace) (r : Option Trace) : Type 0 where
  pub trace : Trace
  pub returns : r ≡ some trace
  pub same : (a : ℕ) → written a trace ≡ written a t
  pub unread : (a : ℕ) → a ≢ status → reads a trace ≡ reads a t
  pub quiet : status ≢ spi_drr → journal trace ≡ journal t
  pub clear : found_clear status flag trace ≡ true
  pub no_overrun : (tx s f : ℕ) → overruns tx s f trace ≡ overruns tx s f t

pow-positive : (k : ℕ) → 0 < 2 ^ k
pow-positive zero = omega arith
pow-positive (suc k) = omega (arith, pow-suc 2 k, pow-positive k)

scaled-zero : (b k : ℕ) → b < 2 → (b * 2 ^ k == 0) ≡ (b == 0)
scaled-zero zero k h = ground arith
scaled-zero (suc zero) k h = ground (arith, pow-positive k)
scaled-zero (suc (suc b)) k h = absurd (omega arith)

module _ (answer : Answer) where
  pub wait_clear-Cleared :
      (status flag n : ℕ) (t : Trace)
      → clears answer status flag n t ≡ true
      → Cleared status flag t (wait_clear answer status flag n t)
  unfolding wait_clear clears written overruns found_clear reads journal
  wait_clear-Cleared status flag zero t h = cc
  wait_clear-Cleared status flag (suc n) t h =
      elim (Bool-cases (bit flag (u32 (answer t status)) == 0)) [
        | inl room ↦
            rw (test, room)
              (record {
                trace = after_read answer status t;
                returns = refl;
                same = λ a. refl;
                unread = λ a h. rw (other_than a h);
                quiet = λ h. rw (other_than spi_drr (λ e. h (sym e)));
                clear = rw (==_refl status, room);
                no_overrun = λ tx s f. refl;
              })
        | inr full ↦
            rw (test, full)
              (later (wait_clear-Cleared status flag n (after_read answer status t) (rw full at h)))
      ]
    where
      test :
          (bit_and (u32 (answer t status)) (2 ^ flag) == 0)
          ≡ (bit flag (u32 (answer t status)) == 0)
      test = rw (bit_and-one_bit flag (u32 (answer t status))) (
          scaled-zero (bit flag (u32 (answer t status))) flag (bit-lt flag (u32 (answer t status))))

      other_than : (a : ℕ) → a ≢ status → (status == a) ≡ false
      other_than a h = ground arith

      later :
          {r : Option Trace}
          → Cleared status flag (after_read answer status t) r
          → Cleared status flag t r
      later w = record {
        trace = w.trace;
        returns = w.returns;
        same = w.same;
        unread = λ a h. w.unread a h ∙ rw (other_than a h);
        quiet = λ h. w.quiet h ∙ rw (other_than spi_drr (λ e. h (sym e)));
        clear = w.clear;
        no_overrun = w.no_overrun;
      }

-- The transmit buffer always drains within the fuel.
abbrev pub IsDraining : Answer → ℕ → Type 0
IsDraining answer fuel = (t : Trace) → clears answer uart_status 3 fuel t ≡ true

-- A driver that sends exactly the bytes `s`.
pub record Sent (s : List ℕ) (t : Trace) (r : Option Trace) : Type 0 where
  pub trace : Trace
  pub returns : r ≡ some trace
  pub sent : written uart_tx trace ≡ written uart_tx t ++ s
  pub others : journal trace ≡ journal t
  pub unread : (a : ℕ) → a ≢ uart_status → reads a trace ≡ reads a t
  pub no_overrun : overruns uart_tx uart_status 3 trace ≡ overruns uart_tx uart_status 3 t

pub Sent-nothing : (t : Trace) → Sent [] t (some t)
Sent-nothing t = record {
  trace = t;
  returns = refl;
  sent = sym (append-nil _);
  others = refl;
  unread = λ a h. refl;
  no_overrun = refl;
}

pub Sent-append :
    {s u : List ℕ} {t : Trace} {r : Option Trace} (next : Trace → Option Trace)
    → Sent s t r
    → ((t' : Trace) → Sent u t' (next t'))
    → Sent (s ++ u) t (and_on r next)
Sent-append {s} {u} {t} next p q = record {
  trace = (q p.trace).trace;
  returns = rw p.returns (q p.trace).returns;
  sent = (q p.trace).sent ∙ ap (λ (l : List ℕ). l ++ u) p.sent ∙ append_assoc _ s u;
  unread = λ a h. (q p.trace).unread a h ∙ p.unread a h;
  others = (q p.trace).others ∙ p.others;
  no_overrun = (q p.trace).no_overrun ∙ p.no_overrun;
}

nib_byte : (x : ℕ) → u8 (nib_char (bit_and x 0xf)) ≡ nib_char (bit_and x 0xf)
unfolding nib_char
nib_byte x = rw (bit_and_low 4 x) (ground arith)

nib_value : (x : ℕ) → digit_value (nib_char (bit_and x 0xf)) ≡ x % 16
unfolding nib_char digit_value
nib_value x = rw (bit_and_low 4 x) (ground arith)

nib-IsHexDigit : (x : ℕ) → IsHexDigit (nib_char (bit_and x 0xf))
unfolding nib_char
nib-IsHexDigit x = rw (bit_and_low 4 x) (ground arith)

-- A C string as it is sent: up to its first zero, with a carriage return before each newline.
unfoldable pub with_returns : List ℕ → List ℕ
with_returns [] = []
with_returns (c ∷ s) =
    if c == 0
    then []
    else (if c == b'\n' then b'\r' ∷ b'\n' ∷ with_returns s else u8 c ∷ with_returns s)

module _ (answer : Answer) (fuel : ℕ) (drains : IsDraining answer fuel) where
  pub uart_putc-Sent : (c : ℕ) (t : Trace) → Sent (u8 c ∷ []) t (uart_putc answer fuel c t)
  unfolding uart_putc written overruns reads journal
  uart_putc-Sent c t = record {
    trace = store uart_tx (u8 c) ∷ w.trace;
    returns = rw w.returns;
    sent = ap (λ (l : List ℕ). l ++ u8 c ∷ []) (w.same uart_tx);
    unread = w.unread;
    others = rw (w.quiet (omega arith));
    no_overrun = rw w.clear (omega (arith, w.no_overrun uart_tx uart_status 3));
  }
    where
      w : Cleared uart_status 3 t (wait_clear answer uart_status 3 fuel t)
      w = wait_clear-Cleared answer uart_status 3 fuel t (drains t)

  -- With a transmit buffer that drains, a string is sent up to its first zero, with a carriage
  -- return before each newline, and no byte is written while the buffer is full.
  pub uart_puts-Sent :
      (s : List ℕ) (t : Trace) → Sent (with_returns s) t (uart_puts answer fuel s t)
  unfolding uart_puts with_returns
  uart_puts-Sent [] t = Sent-nothing t
  uart_puts-Sent (c ∷ s) t = elim (Bool-cases (c == 0)) [
    | inl stop ↦ rw stop (Sent-nothing t)
    | inr more ↦ elim (Bool-cases (c == b'\n')) [
      | inl newline ↦
          let e : c ≡ b'\n' = ground (arith, newline) in
          rw e (
            Sent-append _ (uart_putc-Sent b'\r' t)
              λ t'. Sent-append _ (uart_putc-Sent b'\n' t') (uart_puts-Sent s))
      | inr other ↦ rw (more, other) (Sent-append _ (uart_putc-Sent c t) (uart_puts-Sent s))
    ]
  ]

  -- The digits that `n` more rounds send.
  unfoldable nibs : ℕ → ℕ → List ℕ
  nibs zero v = []
  nibs (suc n) v = nib_char (bit_and (v >>> (4 * n)) 0xf) ∷ nibs n v

  nibs-digits : (n v : ℕ) → All IsHexDigit (nibs n v)
  unfolding nibs
  nibs-digits zero v = tt
  nibs-digits (suc n) v = (nib-IsHexDigit (v >>> (4 * n)), nibs-digits n v)

  put_nibs-Sent : (n v : ℕ) (t : Trace) → Sent (nibs n v) t (put_nibs answer fuel n v t)
  unfolding put_nibs nibs
  put_nibs-Sent zero v t = Sent-nothing t
  put_nibs-Sent (suc n) v t =
      let char = nib_char (bit_and (v >>> (4 * n)) 0xf) in
      let byte : u8 char ≡ char = nib_byte (v >>> (4 * n)) in
      Sent-append _
        (subst (λ c. Sent (c ∷ []) t (uart_putc answer fuel char t)) byte (uart_putc-Sent char t))
        (put_nibs-Sent n v)

  -- Whatever the number, only text is sent.
  pub uart_puthex-sends :
      (v : ℕ) (t : Trace) → (s : List ℕ) × Sent s t (uart_puthex answer fuel v t)
  unfolding uart_puthex
  uart_puthex-sends v t = (_, Sent-append _ (uart_puts-Sent (codes "0x") t) (put_nibs-Sent 8 v))

  -- With a transmit buffer that drains, a 32-bit number is sent as `0x` and eight digits, each of
  -- 0 to 9 or a to f, that read back as it.
  pub uart_puthex-Sent :
      (v : ℕ) (t : Trace)
      → v < 2 ^ 32
      → (digits : List ℕ) × (length digits ≡ 8)
        × All IsHexDigit digits
        × (hex_value_from 0 digits ≡ v)
        × Sent (codes "0x" ++ digits) t (uart_puthex answer fuel v t)
  unfolding uart_puthex nibs hex_value_from with_returns
  uart_puthex-Sent v t h = (
    nibs 8 v,
    refl,
    nibs-digits 8 v,
    rw
        (
          nib_value (v >>> 28),
          nib_value (v >>> 24),
          nib_value (v >>> 20),
          nib_value (v >>> 16),
          nib_value (v >>> 12),
          nib_value (v >>> 8),
          nib_value (v >>> 4),
          nib_value (v >>> 0),
        )
        (omega (arith, h)),
    Sent-append _ (uart_puts-Sent (codes "0x") t) (put_nibs-Sent 8 v),
  )
