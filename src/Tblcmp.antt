-- ===== src/Tblcmp.antt =====
-- Table compression: src/tblcmp.cpp.
pub mod State
pub mod Entry
pub mod Protos
pub mod Build
pub mod Full
pub mod Diff
pub mod Single
pub mod Grown
pub mod Search
pub mod Fill
pub mod Insert
pub mod Entered
