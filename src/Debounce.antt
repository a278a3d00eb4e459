-- ===== src/Debounce.antt =====
-- internal/kite/sync_debouncer.go: at most one portfolio sync of an account at a time, and one more for
-- the requests that come while it runs.
pub mod Syncer
pub mod Phases
pub mod Refines
pub mod Served
