-- ===== src/Squareoff.antt =====
-- internal/squareoff/service.go: closing the positions of an account and of a group.
pub mod Account
pub mod Flat
pub mod Receipts
pub mod Closings
pub mod Outcome
pub mod Group
pub mod Cleared
