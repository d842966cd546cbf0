-- ===== src/Channel.antt =====
-- Channel.h and Channel.cpp: a descriptor, the events it is watched for and the events it had.
pub mod State
pub mod Watch
pub mod Sync
pub mod Added
mod Tests
