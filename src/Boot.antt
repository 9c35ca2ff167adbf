-- ===== src/Boot.antt =====
-- The boot loader (bootloader/): machine-mode firmware that starts Linux, serves its SBI calls and
-- emulates atomic and misaligned accesses.
pub mod Csr
pub mod State
pub mod Serial
pub mod Assert
pub mod Emulation
pub mod Sbi
pub mod Syscalls
pub mod Irq
pub mod Exception
pub mod Vector
pub mod Executed
pub mod Interface
pub mod Holds
pub mod Start
pub mod Reset
