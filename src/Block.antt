-- ===== src/Block.antt =====
-- src/block: block devices.
pub mod Device
pub mod PageCache
