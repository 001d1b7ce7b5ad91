-- ===== src/Fs/Ext2.antt =====
-- kernel/fs/ext2.py: the ext2 driver. Children: the parts of the driver in the order of the file,
-- and the proofs.
pub mod Fields
pub mod Super
pub mod Device
pub mod Mount
pub mod Bitmap
pub mod Alloc
pub mod Inode
pub mod Walk
pub mod Data
pub mod Dir
pub mod Names
pub mod Node
pub mod Image
pub mod OnVfs
pub mod Bits
pub mod ByteScan
pub mod FirstFit
pub mod Blocks
pub mod Cache
pub mod Grants
pub mod Format
pub mod Insert
pub mod Adds
pub mod Adding
pub mod Remove
pub mod Removing
pub mod Removals
pub mod Erase
pub mod AddRemove
pub mod Codec
pub mod Sizes
pub mod Pointers
pub mod Resolves
mod Tests
mod Examples
