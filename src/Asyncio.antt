-- ===== src/Asyncio.antt =====
-- asyncio/: the event loop of the kernel and what tasks wait on.
pub mod Events
pub mod Futures
mod Waiters
pub mod Queues
pub mod Locks
mod Tests
