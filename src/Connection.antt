-- ===== src/Connection.antt =====
-- Connection.h and Connection.cpp.
pub mod Defs
pub mod Live
pub mod Output
pub mod Stream
pub mod Close
pub mod Text
pub mod Input
pub mod Early
mod Tests
