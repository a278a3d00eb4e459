-- ===== src/Listener.antt =====
-- internal/listener/listener.go: the consumers of the two queues.
pub mod Status
pub mod Master
pub mod Audit
