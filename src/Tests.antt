-- ===== src/Tests.antt =====
-- Concrete inputs: the theorems applied to them, and small runs.
mod Exact
mod Sizing
mod World
mod Engine
mod Store
mod Worker
mod Listener
mod Broker
mod Positions
mod Squareoff
mod Groups
mod Rebalancing
mod Debounce
mod Ticker
mod Words
mod Addresses
mod Pool
mod Crypto
mod Accounts
mod Rebalance
mod Recon
mod Pass
