-- ===== src/Recon.antt =====
-- internal/recon/reconciler.go: the polls that make up for what the streams have missed.
pub mod Master
pub mod Backfill
pub mod Follower
pub mod Pass
pub mod Logged
pub mod Inspected
