-- ===== src/Boot/Start.antt =====
-- bootloader/main.c: the start of the kernel. The constants of the build (makefile, CONFIG_*) are
-- the fields of `Config`, and so are the linker's addresses of an embedded kernel.
pub mod Copy
pub mod Delegation
pub mod Loading
use qrisc_v.Base.{ℕ, zero, suc, ◌+◌, ◌*◌, ◌/◌, ◌%◌, ◌^◌, Bool, true, false, List, [], ◌∷◌, codes}
use qrisc_v.Base.{◌==◌, if◌then◌else◌, add32, bit_and, bit_or, not32}
use qrisc_v.Boot.Csr
use qrisc_v.Boot.Csr.{mstatus, medeleg, mideleg, mie, mepc, mscratch, irq_m_timer}
use qrisc_v.Boot.State.{Platform, Machine, M, pure, gets, modify, csr_read, csr_write, sbi_call}
use qrisc_v.Boot.State.{◌>>=◌, ◌>>◌, and_then, irq_callback}
use qrisc_v.Boot.Serial.{serial_init, serial_putstr}
use qrisc_v.Boot.Assert.{assert_fail}
use qrisc_v.Boot.Emulation.Access.{word_of, put_word}
use qrisc_v.Boot.Exception.{exception_set_handler, exception_set_irq_handler, emulation_init}
use qrisc_v.Boot.Exception.{cause_ecall_s, cause_illegal_instruction}
use qrisc_v.Boot.Exception.{cause_misaligned_load, cause_misaligned_store}

abbrev pub mstatus_mpp_shift : ℕ
mstatus_mpp_shift = 11

abbrev pub prv_s : ℕ
prv_s = 1

abbrev pub sr_mpie : ℕ
sr_mpie = 2 ^ 7

-- A kernel linked into the image, or one that is copied out of flash first.
pub record Flash : Type 0 where
  pub dtb_dst : ℕ
  pub dtb_src : ℕ
  pub dtb_size : ℕ
  pub kernel_dst : ℕ
  pub kernel_src : ℕ
  pub kernel_size : ℕ

pub data Config : Type 0 where
  -- The addresses `_payload_start` and `_dtb_start`.
  embedded : ℕ → ℕ → Config
  in_flash : Flash → Config

-- What `mret` makes of the hart: where it goes on, in which mode, and the kernel's two arguments.
pub record Entry : Type 0 where
  pub pc : ℕ
  pub mode : ℕ
  pub a0 : ℕ
  pub a1 : ℕ

abbrev pub uartlite_base : ℕ
uartlite_base = 0x92000000

-- The exceptions that stay in machine mode.
abbrev pub kept_causes : ℕ
kept_causes =
    bit_or
      (bit_or (bit_or (2 ^ cause_ecall_s) (2 ^ cause_illegal_instruction))
        (2 ^ cause_misaligned_load))
      (2 ^ cause_misaligned_store)

-- The banner.
unfoldable pub banner : List (List ℕ)
banner =
    codes "\n"
    ∷ codes
        " _____  _____  _____  _____   __      __  _      _                    ____              _   \n"
    ∷ codes
        "|  __ \\|_   _|/ ____|/ ____|  \\ \\    / / | |    (_)                  |  _ \\            | |  \n"
    ∷ codes
        "| |__) | | | | (___ | |   _____\\ \\  / /  | |     _ _ __  _   ___  __ | |_) | ___   ___ | |_ \n"
    ∷ codes
        "|  _  /  | |  \\___ \\| |  |______\\ \\/ /   | |    | | '_ \\| | | \\ \\/ / |  _ < / _ \\ / _ \\| __|\n"
    ∷ codes
        "| | \\ \\ _| |_ ____) | |____      \\  /    | |____| | | | | |_| |>  <  | |_) | (_) | (_) | |_ \n"
    ∷ codes
        "|_|  \\_\\_____|_____/ \\_____|      \\/     |______|_|_| |_|\\__,_/_/\\_\\ |____/ \\___/ \\___/ \\__|\n"
    ∷ codes "\n"
    ∷ []

module _ (env : Platform) where
  -- One word of the copy; in machine mode addresses are physical.
  unfoldable pub copy_word : ℕ → ℕ → M (Unit {0})
  copy_word dst src =
      modify (λ m. record m { mem = put_word env false m.mem dst (word_of env false m.mem src) })

  unfoldable pub copy_loop : ℕ → ℕ → ℕ → M (Unit {0})
  unfolding copy_word
  copy_loop zero dst src = pure tt
  copy_loop (suc words) dst src = do copy_word dst src; copy_loop words (add32 dst 4) (add32 src 4)

  -- An `assert` of a test.
  unfoldable pub assert : Bool → List ℕ → List ℕ → ℕ → M (Unit {0})
  assert true reason file line = pure tt
  assert false reason file line = assert_fail env reason file line

  -- A length that is an `int` of at most 2^31 - 4.
  unfoldable pub flash_memcpy : ℕ → ℕ → ℕ → M (Unit {0})
  unfolding copy_loop assert
  flash_memcpy dst src length = do
    let words = (length + 3) / 4
    assert (bit_and src 3 == 0) (codes "((uint32_t)pSrc & 3) == 0") (codes "main.c") 38
    assert (bit_and dst 3 == 0) (codes "((uint32_t)pDst & 3) == 0") (codes "main.c") 39
    copy_loop words dst src

  unfoldable pub mret : ℕ → ℕ → M Entry
  mret a0 a1 = do
    pc ← csr_read mepc
    status ← csr_read mstatus
    pure (record { pc = pc; mode = status / 2 ^ mstatus_mpp_shift % 4; a0 = a0; a1 = a1 })

  unfoldable pub boot_kernel : ℕ → ℕ → M Entry
  unfolding mret
  boot_kernel entry_addr dtb_addr = do
    exception_set_handler cause_ecall_s sbi_call
    exception_set_irq_handler irq_callback
    csr_write mie (2 ^ irq_m_timer)
    csr_write mstatus (bit_or (prv_s * 2 ^ mstatus_mpp_shift) sr_mpie)
    csr_write medeleg (not32 kept_causes)
    csr_write mideleg (not32 (2 ^ irq_m_timer))
    csr_write mepc entry_addr
    csr_write mscratch env.stack_top
    mret 0 dtb_addr

  unfoldable pub print_all : List (List ℕ) → M (Unit {0})
  print_all [] = pure tt
  print_all (s ∷ rest) = do serial_putstr env s; print_all rest

  unfoldable pub load_kernel : Config → M Entry
  unfolding boot_kernel flash_memcpy
  load_kernel (embedded payload dtb) = boot_kernel payload dtb
  load_kernel (in_flash c) = do
    serial_putstr env (codes "Copying DTB from FLASH to RAM...\n")
    flash_memcpy c.dtb_dst c.dtb_src c.dtb_size
    serial_putstr env (codes "Copying KERNEL from FLASH to RAM...\n")
    flash_memcpy c.kernel_dst c.kernel_src c.kernel_size
    serial_putstr env (codes "Booting...\n")
    boot_kernel c.kernel_dst c.dtb_dst

  unfoldable pub main : Config → M Entry
  unfolding load_kernel print_all banner
  main config = do
    serial_init env uartlite_base 0
    print_all banner
    emulation_init
    load_kernel config
