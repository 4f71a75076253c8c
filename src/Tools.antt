-- ===== src/Tools.antt =====
-- The kernel's own library of string and memory routines, kernel/tools.
pub mod Fill
pub mod Copy
pub mod Fast
pub mod Str
mod Mirror
mod Tests
