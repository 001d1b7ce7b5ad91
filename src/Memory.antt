-- ===== src/Memory.antt =====
-- kernel/memory: physical frames and address spaces.
pub mod Pmm
pub mod Vmm
mod Tests
