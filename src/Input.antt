-- ===== src/Input.antt =====
-- src/input: the keyboard driver.
pub mod Keyboard
