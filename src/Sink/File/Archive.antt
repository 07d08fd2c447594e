-- ===== src/Sink/File/Archive.antt =====
-- The bytes of the rotating writer: those of all other files of the directory, the rotated segments among
-- them, in the order in which they were made, and then those of the active file
-- (internal/filesink/writer.go, where no segment is pruned).
mod Contents
mod Rotation
mod Steps
mod Append
pub use Contents.*
pub use Rotation.*
pub use Steps.*
pub use Append.*
