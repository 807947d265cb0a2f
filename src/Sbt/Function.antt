-- ===== src/Sbt/Function.antt =====
-- `sbt::Function` of sbt/Function.cpp and sbt/Function.h, one module for each modelled part.
pub mod Sync
pub mod Blocks
pub mod Jump
pub mod Loop
