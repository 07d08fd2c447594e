-- ===== src/Stream/Reorg.antt =====
-- internal/stream/reorg.go: the hashes of recent heights, and the search for a fork.
pub mod Tracker
pub mod Walk
pub mod Fork
pub mod Handle
