-- ===== src/Net.antt =====
-- libs/lib_net: the networking library.
pub mod Result
pub mod Packet
pub mod Queue
pub mod Buffer
pub mod Addr
pub mod Uuid
pub mod Poll
pub mod Writer
pub mod Io
pub mod Sockets
pub mod Base
pub mod Server
pub mod Examples
