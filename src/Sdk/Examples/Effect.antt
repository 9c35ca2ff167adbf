-- ===== src/Sdk/Examples/Effect.antt =====
-- What a program does to the devices besides its text.
use qrisc_v.Base.{ℕ, ◌≡◌, ◌≢◌, refl, sym, ap, ◌∙◌, Option, some, List, [], ◌∷◌, ◌++◌, append_assoc}
use qrisc_v.Base.{append-nil, ==_ne, true, arith}
use qrisc_v.Mmio.{Trace, Answer, store, overruns, found_clear, after_read}
use qrisc_v.Sdk.{uart_tx, uart_status, spi_sr, spi_drr, and_on}
use qrisc_v.Sdk.Uart.{Sent}
use qrisc_v.Sdk.Journal.{Event, wrote, received, journal}
use qrisc_v.Sdk.Examples.{for_each}

-- The events behind those before; and no character is written while the UART's buffer is full.
pub record Effect (w : List Event) (t : Trace) (r : Option Trace) : Type 0 where
  pub trace : Trace
  pub returns : r ≡ some trace
  pub events : journal trace ≡ journal t ++ w
  pub no_overrun : overruns uart_tx uart_status 3 trace ≡ overruns uart_tx uart_status 3 t

pub Effect-nothing : (t : Trace) → Effect [] t (some t)
Effect-nothing t = record {
  trace = t;
  returns = refl;
  events = sym (append-nil _);
  no_overrun = refl;
}

pub Effect-text : {s : List ℕ} {t : Trace} {r : Option Trace} → Sent s t r → Effect [] t r
Effect-text p = record {
  trace = p.trace;
  returns = p.returns;
  events = p.others ∙ sym (append-nil _);
  no_overrun = p.no_overrun;
}

pub Effect-append :
    {w u : List Event} {t : Trace} {r : Option Trace} (next : Trace → Option Trace)
    → Effect w t r
    → ((t' : Trace) → Effect u t' (next t'))
    → Effect (w ++ u) t (and_on r next)
Effect-append {w} {u} {t} next p q = record {
  trace = (q p.trace).trace;
  returns = rw p.returns (q p.trace).returns;
  events =
      (q p.trace).events ∙ ap (λ (l : List Event). l ++ u) p.events ∙ append_assoc (journal t) w u;
  no_overrun = (q p.trace).no_overrun ∙ p.no_overrun;
}

-- After accesses that are no events.
pub Effect-later :
    {w : List Event} {t t' : Trace} {r : Option Trace}
    → journal t' ≡ journal t
    → overruns uart_tx uart_status 3 t' ≡ overruns uart_tx uart_status 3 t
    → Effect w t' r
    → Effect w t r
Effect-later {w} same runs p = record {
  trace = p.trace;
  returns = p.returns;
  events = p.events ∙ ap (λ (l : List Event). l ++ w) same;
  no_overrun = p.no_overrun ∙ runs;
}

-- A write to a register before the rest.
pub Effect-store :
    {w : List Event} {t : Trace} {r : Option Trace} (a v : ℕ)
    → a ≢ uart_tx
    → Effect w (store a v ∷ t) r
    → Effect (wrote a v ∷ w) t r
unfolding journal overruns
Effect-store {w} {t} a v h p = record {
  trace = p.trace;
  returns = p.returns;
  events =
      p.events
      ∙ ap (λ (l : List Event). l ++ w) (rw (==_ne a uart_tx h))
      ∙ append_assoc (journal t) (wrote a v ∷ []) w;
  no_overrun = p.no_overrun ∙ rw (==_ne a uart_tx h) (omega arith);
}

-- A byte taken from the SPI's receive register, once the status has shown it, before the rest.
pub Effect-received :
    {w : List Event} {t : Trace} {r : Option Trace} (answer : Answer)
    → found_clear spi_sr 0 t ≡ true
    → Effect w (after_read answer spi_drr t) r
    → Effect (received true ∷ w) t r
unfolding journal overruns
Effect-received {w} {t} answer shown p = record {
  trace = p.trace;
  returns = p.returns;
  events =
      p.events
      ∙ ap (λ (l : List Event). l ++ w) (rw shown)
      ∙ append_assoc (journal t) (received true ∷ []) w;
  no_overrun = p.no_overrun;
}

-- The events of a loop.
abbrev pub each : {A : Type 0} → (A → List Event) → List A → List Event
each w [] = []
each w (x ∷ xs) = w x ++ each w xs

pub for_each-Effect :
    {A : Type 0} (w : A → List Event) (body : A → Trace → Option Trace) (xs : List A) (t : Trace)
    → ((x : A) (t' : Trace) → Effect (w x) t' (body x t'))
    → Effect (each w xs) t (for_each body xs t)
unfolding for_each
for_each-Effect w body [] t h = Effect-nothing t
for_each-Effect w body (x ∷ xs) t h = Effect-append _ (h x t) λ t'. for_each-Effect w body xs t' h
