-- ===== src/Filesystem/Iso9660.antt =====
-- src/filesystem/iso9660.c: the files, the directories and the mounting of ISO 9660. The semaphore of an
-- inode makes each operation one step.
pub mod Reads
pub mod Record
pub mod Walk
pub mod Mount
mod Tests
