-- ===== src/Stream/Native.antt =====
-- Native value transfers: internal/stream/native.go, and processNative, emitNative, emitInternal and
-- emitInternalTransfers of internal/stream/stream.go and internal.go.
pub mod Units
pub mod Detect
pub mod Emit
