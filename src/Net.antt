-- ===== src/Net.antt =====
-- kernel/net: Ethernet frames, IPv4, ARP and TCP.
pub mod Ethernet
pub mod Ip
pub mod Arp
pub mod Tcp
pub mod Host
mod Tests
