-- ===== src/Stream/Decode.antt =====
-- internal/stream/decode.go: the ABI decoding of a log, from the hexadecimal text to the named
-- parameters. A Go slice expression out of range, and a make of a length out of range, panic.
pub mod Hex
pub mod Word
pub mod Data
pub mod Log
pub mod Panics
