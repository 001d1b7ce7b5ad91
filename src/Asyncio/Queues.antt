-- ===== src/Asyncio/Queues.antt =====
-- asyncio/queues.py: bounded queues. Children: the methods, and the proofs.
pub mod Defs
pub mod Order
pub mod Pending
pub mod Tasks
pub mod Wakeups
