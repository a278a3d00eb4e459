-- ===== src/Worker.antt =====
-- internal/worker/pool.go: one follower's worker, and the pool of their channels.
pub mod Parts
pub mod Place
pub mod Attempts
pub mod Clock
pub mod Rate
pub mod Pool
pub mod Moves
pub mod Fifo
