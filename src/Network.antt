-- ===== src/Network.antt =====
-- cppio/network: the addresses, the endpoints and the POSIX sockets.
pub mod Ip
pub mod Endpoint
pub mod ErrorCategory
pub mod Socket
pub mod Windows
