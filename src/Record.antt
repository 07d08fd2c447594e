-- ===== src/Record.antt =====
-- internal/record: the envelope of a record (record.go), the keys derived from it (key.go), and the
-- reader of records (reader.go).
pub mod Envelope
pub mod Key
pub mod Reader
pub mod Writer
