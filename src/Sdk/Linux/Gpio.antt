-- ===== src/Sdk/Linux/Gpio.antt =====
-- gpio_mmap.c: what it writes to the device, and how it ends without one.
use qrisc_v.Base.{ℕ, zero, suc, ◌+◌, ◌≡◌, refl, ap, Option, none, some, List, [], ◌∷◌, ◌++◌}
use qrisc_v.Base.{◌==◌, ==_refl, if◌then◌else◌, false, arith}
use qrisc_v.Sdk.Linux.{Call, opened, mapped, complained, printed, printed_number, slept, wrote}
use qrisc_v.Sdk.{gpio_base}
use qrisc_v.Sdk.Linux.{Os, Process, mapped_at, map_page, opened_as, map_with, mmio_map}
use qrisc_v.Sdk.Linux.{gpio_toggle, toggle_all, drive_gpio, gpio_mmap_main}

-- The values written to a register, the oldest first.
unfoldable pub stores : ℕ → List Call → List ℕ
stores a [] = []
stores a (wrote b v ∷ t) = if b == a then stores a t ++ v ∷ [] else stores a t
stores a (opened ∷ t) = stores a t
stores a (mapped p ∷ t) = stores a t
stores a (complained s ∷ t) = stores a t
stores a (printed s ∷ t) = stores a t
stores a (printed_number s n ∷ t) = stores a t
stores a (slept n ∷ t) = stores a t

-- No register is written between two processes.
abbrev Quiet : Process → Process → Type 0
Quiet s s' = (a : ℕ) → stores a s'.calls ≡ stores a s.calls

-- What gpio_mmap.c puts out.
abbrev pub patterns : List ℕ
patterns = 0x0000babe ∷ 0xcafe0000 ∷ 0x0000babe ∷ 0xcafe0000 ∷ 0x0000babe ∷ 0xcafe0000 ∷ 0 ∷ []

-- One value after another behind a list.
one_by_one :
    (l : List ℕ)
    → (((((((l ++ 0x0000babe ∷ []) ++ 0xcafe0000 ∷ []) ++ 0x0000babe ∷ []) ++ 0xcafe0000 ∷ [])
            ++ 0x0000babe ∷ [])
          ++ 0xcafe0000 ∷ [])
        ++ 0 ∷ [])
      ≡ l ++ patterns
one_by_one [] = refl
one_by_one (x ∷ l) = ap (λ (t : List ℕ). x ∷ t) (one_by_one l)

-- How the program ends, by the pointer that it got.
abbrev pub Ends : Process → ℕ → ℕ × Process → Type 0
Ends s zero r = (r.0 ≡ 1) × ((a : ℕ) → stores a r.1.calls ≡ stores a s.calls)
Ends s (suc p) r =
    (r.0 ≡ 0)
    × (stores (suc p + 0) r.1.calls ≡ stores (suc p + 0) s.calls ++ 0xffffffff ∷ [])
    × (stores (suc p + 8) r.1.calls ≡ stores (suc p + 8) s.calls ++ patterns)

drive_gpio-Ends : (s : Process) (r : ℕ × Process) → Quiet s r.1 → Ends s r.0 (drive_gpio r)
unfolding drive_gpio toggle_all gpio_toggle stores
drive_gpio-Ends s (zero, s') quiet = (refl, quiet)
drive_gpio-Ends s (suc p, s') quiet =
    let direction : (suc p + 8 == suc p + 0) ≡ false = ground arith in
    let output : (suc p + 0 == suc p + 8) ≡ false = ground arith in
    (
      refl,
      rw (direction, ==_refl (suc p + 0), quiet (suc p + 0)),
      rw (output, ==_refl (suc p + 8), quiet (suc p + 8)) (one_by_one (stores (suc p + 8) s.calls)),
    )

-- How the program ends: by what mapping the page gave (none for MAP_FAILED), by what opening
-- /dev/mem gave, and by whether it was open. `calls` are the calls made before the mapping.
abbrev pub MapEnds : Process → Option ℕ → ℕ × Process → Type 0
MapEnds s none r = Ends s 0 r
MapEnds s (some p) r = Ends s p r

abbrev pub OpenEnds : Os → Process → List Call → Option ℕ → ℕ × Process → Type 0
OpenEnds os s calls none r = Ends s 0 r
OpenEnds os s calls (some fd) r = MapEnds s (os.mmap_page calls fd 0x94000000) r

abbrev pub ProgramEnds : Os → Process → Option ℕ → ℕ × Process → Type 0
ProgramEnds os s none r = OpenEnds os s (opened ∷ s.calls) (os.open_mem s.calls) r
ProgramEnds os s (some fd) r = OpenEnds os s s.calls (some fd) r

module _ (os : Os) (s : Process) where
  mapped_at-MapEnds :
      (o : Option ℕ) (s' : Process) → Quiet s s' → MapEnds s o (drive_gpio (mapped_at os o s'))
  unfolding mapped_at drive_gpio stores
  mapped_at-MapEnds none s' quiet = (refl, quiet)
  mapped_at-MapEnds (some p) s' quiet = drive_gpio-Ends s (p, s') quiet

  opened_as-OpenEnds :
      (o : Option ℕ) (s' : Process)
      → Quiet s s'
      → OpenEnds os s s'.calls o (drive_gpio (opened_as os o gpio_base s'))
  unfolding opened_as map_page drive_gpio stores
  opened_as-OpenEnds none s' quiet = (refl, quiet)
  opened_as-OpenEnds (some fd) s' quiet =
      mapped_at-MapEnds (os.mmap_page s'.calls fd gpio_base) _ quiet

  map_with-ProgramEnds :
      (o : Option ℕ) → ProgramEnds os s o (drive_gpio (map_with os o gpio_base s))
  unfolding map_with map_page stores
  map_with-ProgramEnds none = opened_as-OpenEnds (os.open_mem s.calls) _ (λ a. refl)
  map_with-ProgramEnds (some fd) =
      mapped_at-MapEnds (os.mmap_page s.calls fd gpio_base) _ (λ a. refl)

-- If /dev/mem cannot be opened, or the page of the GPIO's registers cannot be mapped, or only at
-- the null pointer, gpio_mmap.c ends with 1 and has written to no register; otherwise it ends with
-- 0 and has, through the pointer that the mapping gave, made all pins outputs and put out its two
-- patterns three times in turn and then 0.
pub gpio_mmap_main-Ends : (os : Os) (s : Process) → ProgramEnds os s s.fd (gpio_mmap_main os s)
unfolding gpio_mmap_main mmio_map
gpio_mmap_main-Ends os s = map_with-ProgramEnds os s s.fd
