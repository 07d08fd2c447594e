-- ===== src/Stream/Trace.antt =====
-- internal/stream/internal.go: the value transfers inside transactions.
pub mod Frames
pub mod Parity
pub mod Backend
