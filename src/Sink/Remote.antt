-- ===== src/Sink/Remote.antt =====
-- The destinations behind a network call (internal/kafkasink, webhooksink, awssink, pgsink and
-- redissink): a reply of the world decides what the call returns, and whether what was sent was taken.
mod Contract
mod ExactlyOnce
unfoldable pub use Contract.*
unfoldable pub use ExactlyOnce.*
