-- ===== src/Cpu.antt =====
-- src/cpu: containers that the rest of the kernel is built on.
pub mod RadixTree
pub mod RingBuffer
