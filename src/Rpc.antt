-- ===== src/Rpc.antt =====
-- internal/rpc: hexadecimal quantities, the values that a node returns, and its errors.
pub mod Hex
pub mod Errors
pub mod Types
