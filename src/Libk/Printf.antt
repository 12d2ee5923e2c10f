-- ===== src/Libk/Printf.antt =====
-- The formatted output of src/libk/vfprintf.c.
pub mod Convert
pub mod Format
pub mod Print
mod Fuel
mod Plain
pub mod Digits
mod Numbers
mod Strings
mod Tests
