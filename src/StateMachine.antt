-- ===== src/StateMachine.antt =====
-- executor/state_machine.py: the lifecycle of a package of orders, a pure reducer over events.
pub mod Types
pub mod Events
pub mod Tables
pub mod Package
pub mod Handlers
pub mod Reducer
pub mod Evolves
pub mod Effects
pub mod LegSteps
pub mod Steps
pub mod FillSteps
pub mod Transitions
pub mod Terminal
pub mod Creation
pub mod Settled
pub mod SettledSteps
pub mod Reachability
pub mod Fills
pub mod LateFills
mod Tests
