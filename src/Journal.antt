-- ===== src/Journal.antt =====
-- executor/journal.py: the journal of the executor's events, and recovery from it.
pub mod Json
pub mod Primitive
pub mod Types
pub mod Serialize
pub mod Deserialize
pub mod RoundTrip
pub mod Records
pub mod Replay
pub mod Recover
pub mod Writer
pub mod Drained
pub mod Ended
pub mod Lines
pub mod Rebuilt
pub mod Replayed
pub mod Recovered
mod Tests
mod WriterTests
