-- ===== src/TcpServer.antt =====
-- TcpServer.h and TcpServer.cpp.
pub mod Defs
pub mod Create
pub mod Ready
pub mod Running
pub mod Listen
pub mod Maps
pub mod Accept
pub mod Stop
mod Tests
