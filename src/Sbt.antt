-- ===== src/Sbt.antt =====
-- The static binary translator, sbt/ of the repository: one module for each modelled part.
pub mod Map
pub mod Ir
pub mod Builder
pub mod Rv32
pub mod Operand
pub mod Instruction
pub mod Hart
pub mod Float
pub mod Typing
pub mod Relocation
pub mod PrintfBreak
pub mod Function
pub mod Section
