-- ===== src/Sink.antt =====
-- The sinks: the loop that they share, the destinations, and which records each of them keeps.
pub mod Loop
pub mod Remote
pub mod Kafka
pub mod Aws
pub mod Postgres
pub mod Redis
pub mod Filter
pub mod Webhook
pub mod File
pub mod Stdout
