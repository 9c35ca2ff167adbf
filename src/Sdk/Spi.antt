-- ===== src/Sdk/Spi.antt =====
-- A transfer over SPI (sdk/baremetal/bm.h).
use qrisc_v.Base.{ℕ, ◌≡◌, ap, ◌∙◌, some, List, [], ◌∷◌, ◌++◌, append_assoc, u8, u32, true}
use qrisc_v.Base.Fields.{bit_and_low}
use qrisc_v.Mmio.{Trace, Answer, store, written, clears, found_clear, after_read}
use qrisc_v.Sdk.{spi_sr, spi_dtr, spi_drr, spi_ssr, finish_xfer, spi_xfer}
use qrisc_v.Sdk.Uart.{wait_clear-Cleared}

module _ (answer : Answer) (fuel tx : ℕ) (t : Trace) where
  -- If a byte comes back within the fuel, a transfer selects the first device alone, sends the
  -- byte, deselects it, and gives the low byte of what the receive register holds once the status
  -- has shown that there is one.
  pub spi_xfer-written :
      clears answer spi_sr 0 fuel (store spi_dtr tx ∷ store spi_ssr 0xfffffffe ∷ t) ≡ true
      → (t' : Trace) × (waited : Trace) × (spi_xfer answer fuel tx t
          ≡ some (u8 (u32 (answer waited spi_drr)), t'))
        × (found_clear spi_sr 0 waited ≡ true)
        × (written spi_ssr t' ≡ written spi_ssr t ++ 0xfffffffe ∷ 0xffffffff ∷ [])
        × (written spi_dtr t' ≡ written spi_dtr t ++ tx ∷ [])
  unfolding spi_xfer finish_xfer written
  spi_xfer-written h =
      let w =
        wait_clear-Cleared answer spi_sr 0 fuel (store spi_dtr tx ∷ store spi_ssr 0xfffffffe ∷ t)
          h in
      (
        store spi_ssr 0xffffffff ∷ after_read answer spi_drr w.trace,
        w.trace,
        rw w.returns (
            ap (λ (b : ℕ). some (b, store spi_ssr 0xffffffff ∷ after_read answer spi_drr w.trace))
              (bit_and_low 8 (u32 (answer w.trace spi_drr)))),
        w.clear,
        ap (λ (l : List ℕ). l ++ 0xffffffff ∷ []) (w.same spi_ssr)
            ∙ append_assoc (written spi_ssr t) (0xfffffffe ∷ []) (0xffffffff ∷ []),
        w.same spi_dtr,
      )
