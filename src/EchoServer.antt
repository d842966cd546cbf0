-- ===== src/EchoServer.antt =====
-- EchoServer.h and EchoServer.cpp: the server's user, who sends back what it receives.
pub mod Defs
pub mod Reply
pub mod Way
pub mod Overread
pub mod Main
pub mod Workers
pub mod Reach
mod Tests
