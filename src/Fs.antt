-- ===== src/Fs.antt =====
-- kernel/fs: the file system switch and the in-memory file system.
pub mod Tmpfs
pub mod Ext2
mod PurePath
pub mod Vfs
mod Tests
