-- ===== src/Udp.antt =====
-- src/udp.cpp: UDPSocket. The system calls are lists of the replies that they give in turn.
pub mod Gso
pub mod Send
pub mod Receive
pub mod Writeable
pub mod Setup
mod Tests
