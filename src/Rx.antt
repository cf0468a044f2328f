-- ===== src/Rx.antt =====
-- rx.c: the receiver.
pub mod Worker
pub mod Effects
pub mod Payload
pub mod Mishap
pub mod Frame
pub mod Deliver
pub mod Loop
mod Tests
pub mod Start
pub mod Launch
