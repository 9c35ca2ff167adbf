-- ===== src/Sdk/Examples/Echo.antt =====
-- hello_uart.c: the echo.
use mathlib.Core.Path.{subst}
use qrisc_v.Base.{ℕ, zero, suc, ◌≡◌, refl, sym, ap, ◌∙◌, inl, inr, true, false, Bool, Bool-cases}
use qrisc_v.Base.{Option, some, none, List, [], ◌∷◌, ◌++◌, append_assoc, append-nil, length, ◌==◌}
use qrisc_v.Base.{if◌then◌else◌, bit, bit_and, u8, u32, arith}
use qrisc_v.Base.Fields.{bit_and-one_bit, bit_and_low}
use qrisc_v.Mmio.{Trace, Answer, written, reads, overruns, after_read}
use qrisc_v.Sdk.{uart_rx, uart_tx, uart_status, uart_getc_nb, uart_putc}
use qrisc_v.Sdk.Uart.{IsDraining, Sent, Sent-nothing, Sent-append, uart_putc-Sent}
use qrisc_v.Sdk.Examples.{or_later, wait_char, echo_char, echo_loop}

-- Within `n` polls the status shows a character.
unfoldable pub arrives : Answer → ℕ → Trace → Bool
arrives answer zero t = false
arrives answer (suc n) t =
    let rest = arrives answer n (after_read answer uart_status t) in
    if bit 0 (u32 (answer t uart_status)) == 0 then rest else true

-- What is sent for the values read: their low bytes, with a newline behind each carriage return.
unfoldable pub echoed : List ℕ → List ℕ
echoed [] = []
echoed (v ∷ s) = if u8 v == b'\r' then b'\r' ∷ b'\n' ∷ echoed s else u8 v ∷ echoed s

echoed-first : (v : ℕ) (s : List ℕ) → echoed (v ∷ []) ++ echoed s ≡ echoed (v ∷ s)
unfolding echoed
echoed-first v s = elim (Bool-cases (u8 v == b'\r')) [
  | inl return ↦ rw return
  | inr other ↦ rw other
]

-- A wait that gives the low byte of a value read from the receive register.
record Got (t : Trace) (r : Option (ℕ × Trace)) : Type 0 where
  value : ℕ
  trace : Trace
  returns : r ≡ some (u8 value, trace)
  read : reads uart_rx trace ≡ reads uart_rx t ++ value ∷ []
  same : written uart_tx trace ≡ written uart_tx t
  no_overrun : overruns uart_tx uart_status 3 trace ≡ overruns uart_tx uart_status 3 t

-- `n` values are read, and sent back in order.
pub record Echoed (n : ℕ) (t : Trace) (r : Option Trace) : Type 0 where
  pub trace : Trace
  pub values : List ℕ
  pub returns : r ≡ some trace
  pub count : length values ≡ n
  pub read : reads uart_rx trace ≡ reads uart_rx t ++ values
  pub sent : written uart_tx trace ≡ written uart_tx t ++ echoed values
  pub no_overrun : overruns uart_tx uart_status 3 trace ≡ overruns uart_tx uart_status 3 t

module _ (answer : Answer) (fuel : ℕ) where
  bit_test : (x : ℕ) → (bit_and x 1 == 0) ≡ (bit 0 x == 0)
  bit_test x = ap (λ (y : ℕ). y == 0) (bit_and-one_bit 0 x ∙ omega arith)

  getc-none :
      (t : Trace)
      → (bit 0 (u32 (answer t uart_status)) == 0) ≡ true
      → uart_getc_nb answer t ≡ (none, after_read answer uart_status t)
  unfolding uart_getc_nb
  getc-none t empty = rw (bit_test (u32 (answer t uart_status)), empty)

  getc-some :
      (t : Trace)
      → (bit 0 (u32 (answer t uart_status)) == 0) ≡ false
      → let seen = after_read answer uart_status t in
        uart_getc_nb answer t
        ≡ (some (u8 (u32 (answer seen uart_rx))), after_read answer uart_rx seen)
  unfolding uart_getc_nb
  getc-some t there =
      let seen = after_read answer uart_status t in
      rw (bit_test (u32 (answer t uart_status)), there)
        (ap (λ (b : ℕ). (some b, after_read answer uart_rx seen))
          (bit_and_low 8 (u32 (answer seen uart_rx))))

  wait_char-Got :
      (n : ℕ) (t : Trace) → arrives answer n t ≡ true → Got t (wait_char answer fuel n t)
  unfolding wait_char or_later arrives reads written overruns
  wait_char-Got zero t h = cc
  wait_char-Got (suc n) t h = elim (Bool-cases (bit 0 (u32 (answer t uart_status)) == 0)) [
    | inl empty ↦
        rw (getc-none t empty)
          (later (wait_char-Got n (after_read answer uart_status t) (rw empty at h)))
    | inr there ↦ rw (getc-some t there) (record {
      value = u32 (answer (after_read answer uart_status t) uart_rx);
      trace = after_read answer uart_rx (after_read answer uart_status t);
      returns = refl;
      read = refl;
      same = refl;
      no_overrun = refl;
    })
  ]
    where
      later : {r : Option (ℕ × Trace)} → Got (after_read answer uart_status t) r → Got t r
      later w = record {
        value = w.value;
        trace = w.trace;
        returns = w.returns;
        read = w.read;
        same = w.same;
        no_overrun = w.no_overrun;
      }

  module _ (drains : IsDraining answer fuel)
      (fed : (t : Trace) → arrives answer fuel t ≡ true) where
    -- The answer to one value.
    replied :
        (v : ℕ) (t : Trace) → Sent (echoed (v ∷ [])) t (echo_char answer fuel (some (u8 v, t)))
    unfolding echo_char echoed
    replied v t = elim (Bool-cases (u8 v == b'\r')) [
      | inl return ↦
          let e : u8 v ≡ b'\r' = ground (arith, return) in
          rw e (
            Sent-append _ (uart_putc-Sent answer fuel drains b'\r' t)
              (uart_putc-Sent answer fuel drains b'\n'))
      | inr other ↦
          let e : u8 (u8 v) ≡ u8 v = omega arith in
          rw other (
            Sent-append _
              (subst (λ c. Sent (c ∷ []) t (uart_putc answer fuel (u8 v) t)) e
                (uart_putc-Sent answer fuel drains (u8 v) t))
              Sent-nothing)
    ]

    -- With a transmit buffer that drains and a sender that always sends on within the fuel, the
    -- loop of hello_uart.c ends: it has read as many values as it has rounds and sent back their
    -- low bytes in order, with a newline behind each carriage return, and has written no character
    -- while the buffer is full.
    pub echo_loop-Echoed : (n : ℕ) (t : Trace) → Echoed n t (echo_loop answer fuel n t)
    unfolding echo_loop echoed
    echo_loop-Echoed zero t = record {
      trace = t;
      values = [];
      returns = refl;
      count = refl;
      read = sym (append-nil _);
      sent = sym (append-nil _);
      no_overrun = refl;
    }
    echo_loop-Echoed (suc n) t =
        let got = wait_char-Got fuel t (fed t) in
        let reply = replied got.value got.trace in
        let rest = echo_loop-Echoed n reply.trace in
        record {
          trace = rest.trace;
          values = got.value ∷ rest.values;
          returns = rw (got.returns, reply.returns) rest.returns;
          count = ap suc rest.count;
          read =
              rest.read
              ∙ ap (λ (l : List ℕ). l ++ rest.values)
                  (reply.unread uart_rx (omega arith) ∙ got.read)
              ∙ append_assoc (reads uart_rx t) (got.value ∷ []) rest.values;
          sent =
              rest.sent
              ∙ ap (λ (l : List ℕ). l ++ echoed rest.values)
                  (reply.sent ∙ ap (λ (l : List ℕ). l ++ echoed (got.value ∷ [])) got.same)
              ∙ append_assoc (written uart_tx t) (echoed (got.value ∷ [])) (echoed rest.values)
              ∙ ap (λ (l : List ℕ). written uart_tx t ++ l) (echoed-first got.value rest.values);
          no_overrun = rest.no_overrun ∙ reply.no_overrun ∙ got.no_overrun;
        }
