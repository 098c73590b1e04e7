-- ===== src/Tables.antt =====
-- The serialised tables: src/tables.cpp and src/tables_shared.cpp.
pub mod File
pub mod Write
pub mod Compress
pub mod Narrow
pub mod Append
pub mod Header
