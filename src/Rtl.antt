-- ===== src/Rtl.antt =====
-- nemu/src/engine/interpreter: the register-transfer operations that the instructions are made of.
pub mod COp
pub mod Machine
pub mod Basic
pub mod Words
