-- ===== src/Broker.antt =====
-- testbroker/engine.go: the order engine of the mock broker.
pub mod Order
pub mod Book
pub mod Place
pub mod Sound
pub mod Final
pub mod Terminal
pub mod Positions
pub mod Tallies
pub mod Nets
