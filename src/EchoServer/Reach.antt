-- ===== src/EchoServer/Reach.antt =====
-- An echo server with any number of clients, events and workers: what holds whatever comes.
pub mod Sound
pub mod Moves
pub mod Ends
pub mod Sends
pub mod Events
pub mod Accepts
pub mod Rounds
pub mod Steps
pub mod Reads
pub mod Handles
pub mod Returns
pub mod Serving
pub mod Serves
pub mod Wakes
pub mod Ticks
pub mod Replies
mod Tests
