-- ===== src/Driver.antt =====
-- src/driver: the device model.
pub mod Registry
