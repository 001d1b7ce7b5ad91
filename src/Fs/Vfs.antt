-- ===== src/Fs/Vfs.antt =====
-- kernel/fs/vfs.py: mounts, paths and file descriptors, over any file systems. Children: the methods,
-- and the proofs.
pub mod Defs
pub mod Calls
pub mod Mounts
pub mod Cover
pub mod Table
pub mod Effects
pub mod Files
pub mod Directories
pub mod OnTmpfs
mod Tests
