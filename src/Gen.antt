-- ===== src/Gen.antt =====
-- The tables of the scanner: src/gen.cpp.
pub mod Arrays
pub mod Full
pub mod Agree
pub mod Pairs
pub mod Room
