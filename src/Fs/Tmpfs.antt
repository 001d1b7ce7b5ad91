-- ===== src/Fs/Tmpfs.antt =====
-- kernel/fs/tmpfs.py: nodes in memory, their files and their directories.
pub mod Defs
pub mod Files
pub mod Names
pub mod Paths
pub mod Entries
