-- ===== src/Intc/Reported.antt =====
-- Which interrupt `xintc_get_irq` reports on the controller of this SoC: the register that it reads
-- shows the lowest input that is enabled and pending (src/soc/irq_ctrl.v, `ivr_vector_r`).
use qrisc_v.Base.{ℕ, ◌<◌, ◌≡◌, ◌⊎◌, refl, ◌∙◌, inl, inr, true, false}
use qrisc_v.Base.{suc, Bool-cases, ◌==◌, if◌then◌else◌, bit, bit-lt, bit_and, u32, add32, arith}
use qrisc_v.Mmio.{Trace}
use qrisc_v.Intc.{ivr, no_irq, Chip, Kernel, xintc_read, xintc_get_irq}
use qrisc_v.Intc.Device.{enabled, pending}

-- The register's value for the inputs that are enabled and pending.
abbrev pub vector_of : ℕ → ℕ
vector_of served =
    if bit 0 served == 1
    then 0
    else (if bit 1 served == 1
        then 1
        else (if bit 2 served == 1 then 2 else (if bit 3 served == 1 then 3 else no_irq)))

-- The inputs that want to be served after these accesses.
abbrev pub served : ℕ → (Trace → ℕ) → Trace → ℕ
served base lines t = bit_and (pending base lines t) (enabled base lines t)

-- A read of the register answers so.
abbrev pub IsController : Kernel → Chip → (Trace → ℕ) → Type 0
IsController k chip lines =
    (t : Trace) → k.answer t (add32 chip.base ivr) ≡ vector_of (served chip.base lines t)

abbrev pub IsLowest : ℕ → ℕ → Type 0
IsLowest mask j = (j < 4) × (bit j mask ≡ 1) × ((i : ℕ) → i < j → bit i mask ≡ 0)

abbrev pub IsIdle : ℕ → Type 0
IsIdle mask = (i : ℕ) → i < 4 → bit i mask ≡ 0

-- No input below a number is set.
abbrev AreClear : ℕ → ℕ → Type 0
AreClear mask j = (i : ℕ) → i < j → bit i mask ≡ 0

AreClear-suc : (mask j : ℕ) → (bit j mask == 1) ≡ false → AreClear mask j → AreClear mask (suc j)
AreClear-suc mask j clear below i h = elim (Bool-cases (i == j)) [
  | inl same ↦ let e : i ≡ j = ground (arith, same) in rw e (ground (arith, clear, bit-lt j mask))
  | inr other ↦ below i (ground (arith, other))
]

AreClear-zero : (mask : ℕ) → AreClear mask 0
AreClear-zero mask i h = absurd (omega arith)

set_bit : (mask j : ℕ) → (bit j mask == 1) ≡ true → bit j mask ≡ 1
set_bit mask j e = ground (arith, e)

abbrev Shows : ℕ → ℕ → Type 0
Shows mask v = ((j : ℕ) × IsLowest mask j × (v ≡ j)) ⊎ (IsIdle mask × (v ≡ no_irq))

vector_of-Shows : (mask : ℕ) → Shows mask (vector_of mask)
vector_of-Shows mask =
    let z0 = AreClear-zero mask in
    elim (Bool-cases (bit 0 mask == 1)) [
      | inl b0 ↦ rw b0 (inl (0, (omega arith, set_bit mask 0 b0, z0), refl))
      | inr c0 ↦
          let z1 = AreClear-suc mask 0 c0 z0 in
          elim (Bool-cases (bit 1 mask == 1)) [
            | inl b1 ↦ rw (c0, b1) (inl (1, (omega arith, set_bit mask 1 b1, z1), refl))
            | inr c1 ↦
                let z2 = AreClear-suc mask 1 c1 z1 in
                elim (Bool-cases (bit 2 mask == 1)) [
                  | inl b2 ↦ rw (c0, c1, b2) (inl (2, (omega arith, set_bit mask 2 b2, z2), refl))
                  | inr c2 ↦
                      let z3 = AreClear-suc mask 2 c2 z2 in
                      elim (Bool-cases (bit 3 mask == 1)) [
                        | inl b3 ↦
                            rw (c0, c1, c2, b3)
                              (inl (3, (omega arith, set_bit mask 3 b3, z3), refl))
                        | inr c3 ↦ rw (c0, c1, c2, c3) (inr (AreClear-suc mask 3 c3 z3, refl))
                      ]
                ]
          ]
    ]

module _ (k : Kernel) (chip : Chip) (lines : Trace → ℕ) (device : IsController k chip lines)
    (t : Trace) where
  abbrev pub wanted : ℕ
  wanted = served chip.base lines t

  reported :
      (v : ℕ)
      → vector_of wanted ≡ v
      → u32 v ≡ v
      → (xintc_get_irq k false chip t).0
        ≡ (if v == no_irq then no_irq else k.find_mapping chip.root_domain v)
  unfolding xintc_get_irq xintc_read
  reported v e small = rw (device t, e, small)

  -- On this controller, in the hart's byte order: if an input is enabled and pending, the lowest
  -- such one is reported, by the interrupt that the domain maps it to; if there is none, none is
  -- reported.
  pub xintc_get_irq-Lowest :
      ((j : ℕ) × IsLowest wanted j
        × ((xintc_get_irq k false chip t).0 ≡ k.find_mapping chip.root_domain j))
      ⊎ (IsIdle wanted × ((xintc_get_irq k false chip t).0 ≡ no_irq))
  xintc_get_irq-Lowest = elim (vector_of-Shows wanted) [
    | inl (j, lowest, e) ↦
        let fits : u32 j ≡ j = omega (arith, lowest.0) in
        let found : (j == no_irq) ≡ false = ground (arith, lowest.0) in
        inl (j, lowest, reported j e fits ∙ rw found)
    | inr (idle, e) ↦ inr (idle, reported no_irq e (omega arith))
  ]
