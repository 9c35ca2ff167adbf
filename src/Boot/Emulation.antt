-- ===== src/Boot/Emulation.antt =====
-- bootloader/emulation.c: handlers of the exceptions for an instruction that the core has not
-- (atomics) and for loads and stores at addresses that it cannot use (misaligned).
pub mod Access
pub mod Decode
pub mod Atomic
pub mod Misaligned
pub mod Width
pub mod Guard
pub mod Divert
pub mod Reserve
pub mod Monitor
pub mod Amo
pub mod Bytes
pub mod Value
pub mod Outcome
pub mod Load
pub mod Store
pub mod RoundTrip
pub mod Returns
