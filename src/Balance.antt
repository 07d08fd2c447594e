-- ===== src/Balance.antt =====
-- internal/balance/balance.go: the change detection of evm-balance and its emission.
pub mod Apply
pub mod Errors
pub mod Cadence
pub mod Abi
