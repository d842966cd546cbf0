-- ===== src/Epoll.antt =====
-- Epoll.h and Epoll.cpp. The kernel's side of epoll and eventfd is a parameter.
pub mod Kernel
pub mod Defs
pub mod Table
