-- ===== src/Memory.antt =====
-- src/memory: the kernel's memory.
pub mod Buddy
pub mod Slab
pub mod Areas
