-- ===== src/Engine.antt =====
-- internal/engine/engine.go: the fan-out of one master fill to the followers of its master.
-- `Parts` holds what the engine is wired to, `Sizing` the quantity of one link, `Dispatch` the
-- hand-over of the sized orders, `Handle` the handler; the other modules prove.
pub mod Parts
pub mod Sizing
pub mod Prices
pub mod Dispatch
pub mod Handle
pub mod Trace
pub mod Loop
pub mod Outcome
pub mod FanOut
pub mod Copies
pub mod Redelivery
