-- ===== src/Stream.antt =====
-- internal/stream: the keepalive wheel of the live streams.
pub mod Heartbeat
