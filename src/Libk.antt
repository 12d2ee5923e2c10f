-- ===== src/Libk.antt =====
-- The kernel's C library (src/libk).
pub mod Str
pub mod Int
pub mod Stdio
mod Errno
pub mod Printf
