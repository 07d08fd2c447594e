-- ===== src/Stream.antt =====
-- internal/stream: evm-stream, from a poll of the head down to the decoding of one log.
pub mod State
pub mod Reorg
pub mod Decode
pub mod Logs
pub mod Trace
pub mod Native
pub mod Poll
pub mod Run
