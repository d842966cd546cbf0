-- ===== src/Socket.antt =====
-- Socket.h and Socket.cpp: the class that owns a descriptor, and what it asks of the kernel.
pub mod Net
pub mod Defs
pub mod Setup
pub mod Table
