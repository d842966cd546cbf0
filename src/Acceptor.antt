-- ===== src/Acceptor.antt =====
-- Acceptor.h and Acceptor.cpp: the listening socket and its channel.
pub mod Defs
pub mod Listen
