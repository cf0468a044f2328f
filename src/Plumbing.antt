-- ===== src/Plumbing.antt =====
-- plumbing.c: the checksum, the buffered read and the stopwatch.
pub mod Mix
pub mod Stopwatch
pub mod Source
pub mod Sink
pub mod Tray
pub mod Bufferfill
pub mod Pipe
mod Tests
