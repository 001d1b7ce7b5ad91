-- ===== src/Asyncio/Events.antt =====
-- asyncio/events.py: the event loop. Children: its methods, the order of timers, and a round.
pub mod Defs
pub mod Order
pub mod Grows
pub mod Round
