-- ===== src/Mibench.antt =====
-- The benchmark programs of mibench/: one module for each modelled part.
pub mod Isqrt
pub mod Bitcount
pub mod Adpcm
pub mod Crc32
