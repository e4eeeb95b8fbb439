-- ===== src/Strings.antt =====
-- The strings of the kernel, in src/lib/string.c.
pub mod Memory
pub mod Length
pub mod Itoa
