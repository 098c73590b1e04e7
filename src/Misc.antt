-- ===== src/Misc.antt =====
-- The helpers of src/misc.cpp.
pub mod Strings
pub mod Escape
pub mod Skeleton
pub mod Data
