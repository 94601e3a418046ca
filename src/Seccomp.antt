-- ===== src/Seccomp.antt =====
-- The system-call filter of src/seccomp.rs: classic-BPF programs, the machine that runs them, the
-- table of installed filters, and the builder of allow-lists. A `u16`, `u32` or `u64` is a number
-- below 2 ^ 16, 2 ^ 32 or 2 ^ 64.
pub mod Insn
pub mod Machine
pub mod Table
pub mod Allowlist
mod Tests
