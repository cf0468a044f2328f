-- ===== src/Net.antt =====
-- The connections: the socket calls, and what plumbing.c makes of them.
pub mod Calls
pub mod Connect
pub mod Ends
pub mod Connected
pub mod Listening
pub mod Refused
pub mod Tests
