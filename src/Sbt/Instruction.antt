-- ===== src/Sbt/Instruction.antt =====
-- `Instruction::translate` of sbt/Instruction.cpp and the methods it dispatches to, one module for
-- each kind of instruction.
pub mod Alu
pub mod MulDiv
pub mod Upper
pub mod Branch
pub mod Memory
pub mod Translate
pub mod Csr
