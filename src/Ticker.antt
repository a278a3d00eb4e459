-- ===== src/Ticker.antt =====
-- internal/ticker/manager.go: the tickers of the masters. A method runs in sections: those that hold the
-- lock, and those between, during which other goroutines run.
pub mod Manager
pub mod Places
pub mod Accounted
pub mod Shutdown
