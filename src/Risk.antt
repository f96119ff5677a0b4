-- ===== src/Risk.antt =====
-- executor/risk.py: limits on what may be registered, watched while it is open, and the kill switches.
pub mod Types
pub mod Exposure
pub mod Reservations
pub mod Counter
pub mod Manager
pub mod PreTrade
pub mod Register
pub mod Watch
pub mod Recovery
pub mod Passed
pub mod Allowed
pub mod Limits
pub mod Registered
pub mod Evaluated
pub mod Kept
pub mod History
pub mod Halted
pub mod Closed
mod Tests
mod ManagerTests
