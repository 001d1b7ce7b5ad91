-- ===== src/Net/Tcp.antt =====
-- kernel/net/tcp.py: segments, connections, listeners and the demultiplexer.
mod Segment
pub mod Wire
mod Connection
pub mod Stream
pub mod Lifecycle
pub mod Stack
pub mod Demux
pub mod Tables
pub mod Handshake
unfoldable pub use Segment.*
unfoldable pub use Connection.*
