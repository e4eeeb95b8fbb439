-- ===== src/Video.antt =====
-- src/video: the terminal on the screen.
pub mod Screen
pub mod Terminal
