-- ===== src/Memory/Vmm.antt =====
-- kernel/memory/vmm.py: address spaces. A method that also works on the shared frame manager takes
-- and returns both objects. The TLB flush is a stub in the code and has no state.
mod Defs
mod Region
mod Spaces
unfoldable pub use Defs.*
pub use Region.*
pub use Spaces.*
