-- ===== src/Stream.antt =====
-- `AisStreamClient`, src/ais-stream/ais_stream_client.h and .cpp.
pub mod Output
pub mod Messages
pub mod Session
pub mod Subscribe
pub mod Backoff
pub mod Threads
pub mod Client
