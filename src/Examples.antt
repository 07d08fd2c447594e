-- ===== src/Examples.antt =====
-- Concrete inputs on which the theorems are applied.
mod Data
mod Records
mod Streams
mod Runs
mod Reorgs
mod Traces
mod SinkData
mod Sinks
mod Stores
mod Hooks
mod Files
mod Outputs
mod Balances
