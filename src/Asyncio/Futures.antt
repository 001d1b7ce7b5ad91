-- ===== src/Asyncio/Futures.antt =====
-- asyncio/futures.py: futures. Children: the methods, and the proofs.
pub mod Defs
pub mod Settles
