-- ===== src/Tx.antt =====
-- tx.c: the transmitter.
pub mod Worker
pub mod Ingest
pub mod Consistency
pub mod Rounds
mod Tests
pub mod Poll
pub mod Push
pub mod Pseudo
pub mod Stream
pub mod Dispatch
pub mod Sums
pub mod Targets
pub mod Start
pub mod Launch
pub mod Status
