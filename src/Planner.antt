-- ===== src/Planner.antt =====
-- executor/planner.py: from an opportunity and the latest books to an execution plan, or to the
-- reason why there is none.
pub mod Types
pub mod Prices
pub mod Checks
pub mod Units
pub mod Build
pub mod Plan
pub mod Rounding
pub mod Limits
pub mod Passed
pub mod Sums
pub mod Caps
pub mod Totals
pub mod Fees
pub mod Built
pub mod Inputs
pub mod Accepted
pub mod Outcomes
pub mod Total
pub mod Acceptance
pub mod Spending
mod Tests
