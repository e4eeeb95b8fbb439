-- ===== src/Filesystem.antt =====
-- src/filesystem: the virtual file system.
pub mod Descriptors
pub mod Iso9660
pub mod Entries
pub mod Dentry
