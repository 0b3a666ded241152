-- ===== src/Socket.antt =====
-- src/socket.c: the socket pool and the socket thread.
pub mod State
pub mod Pool
pub mod Sp
pub mod Send
pub mod Calls
pub mod Ops
pub mod Poll
pub mod Life
mod Tests
