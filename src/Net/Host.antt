-- ===== src/Net/Host.antt =====
-- kernel/net/stack.py: what joins the network card, ARP, IP and TCP. Children: the synchronous functions, and
-- the proofs.
pub mod Defs
pub mod Sends
pub mod Answers
pub mod Exchange
pub mod Delivery
mod Tests
