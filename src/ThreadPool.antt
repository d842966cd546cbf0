-- ===== src/ThreadPool.antt =====
-- ThreadPool.h and ThreadPool.cpp: workers that share a queue, a mutex and a condition variable.
pub mod System
mod Moves
mod Totals
mod Roused
pub mod Ending
pub mod Invariant
pub mod Safety
pub mod Accounting
pub mod Filling
pub mod Shutdown
pub mod Full
mod Tests
