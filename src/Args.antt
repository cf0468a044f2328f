-- ===== src/Args.antt =====
-- The option loop of `main` (viamillipede.c).
pub mod Settings
pub mod Handlers
pub mod Loop
pub mod Ends
pub mod Ranges
pub mod Bounds
pub mod Items
pub mod Rounds
pub mod Written
pub mod Missing
mod Tests
