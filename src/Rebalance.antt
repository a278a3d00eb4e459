-- ===== src/Rebalance.antt =====
-- internal/rebalance/service.go: what a follower's positions lack to match its master's.
pub mod Drift
pub mod Keys
pub mod Closes
pub mod Goal
pub mod Balanced
pub mod Account
pub mod Orders
pub mod Made
pub mod Outcome
