-- ===== src/Net/Ip.antt =====
-- kernel/net/ip.py: IPv4 packets and the Internet checksum.
mod Checksum
mod Packet
unfoldable pub use Checksum.*
unfoldable pub use Packet.*
