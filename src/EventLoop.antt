-- ===== src/EventLoop.antt =====
-- EventLoop.h and EventLoop.cpp.
pub mod Defs
pub mod Created
pub mod Run
pub mod Tasks
pub mod Timer
pub mod Dispatch
pub mod Queue
pub mod Flow
pub mod Delivery
mod Tests
