-- ===== src/Socket.antt =====
-- src/ipc/socket_channel.cpp, as a POSIX build compiles it: the TCP transport. The children are its
-- parts: the wire format, the loops over ::send and ::recv, the producer, the consumer, and the
-- choice among the addresses that getaddrinfo resolved.
pub mod Wire
pub mod Stream
pub mod Producer
pub mod Sends
pub mod Consumer
pub mod Frames
pub mod Delivery
pub mod Connect
pub mod Resolve
mod Examples
