-- ===== src/Asyncio/Locks.antt =====
-- asyncio/locks.py: events, locks and semaphores. Children: the methods, and the proofs.
pub mod Defs
pub mod Holders
