-- ===== src/Memory/Pmm.antt =====
-- kernel/memory/pmm.py: the physical memory manager. The class `PageFrame` has one field, its
-- physical address, and is that number here; the list of ranges is kept with its end first, since
-- the code works at the end of its list (`_ranges[-1]`, `pop`, `append`).
mod Defs
mod Frames
mod Bulk
mod Boot
unfoldable pub use Defs.*
unfoldable pub use Frames.*
pub use Bulk.*
pub use Boot.*
