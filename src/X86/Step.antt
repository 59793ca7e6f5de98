-- ===== src/X86/Step.antt =====
-- One round of an x86 guest on an encoded `mov`.
pub mod Write
pub mod Operands
pub mod Ready
pub mod Moves
pub mod Loads
pub mod Immediates
pub mod Round
