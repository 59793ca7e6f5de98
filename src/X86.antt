-- ===== src/X86.antt =====
-- nemu/src/isa/x86: registers, decoding and execution of the guest.
pub mod Reg
pub mod RegTest
pub mod Eflags
pub mod Modrm
pub mod Decode
pub mod Arith
pub mod Move
pub mod Exec
mod Tests
pub mod Spec
pub mod Step
