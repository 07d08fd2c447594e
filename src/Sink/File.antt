-- ===== src/Sink/File.antt =====
-- internal/filesink: the rotating writer and the loop that appends records to it. Filter is the
-- module Sink.Filter.
pub mod Disk
pub mod Names
pub mod Writer
pub mod Archive
pub mod Run
