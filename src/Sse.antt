-- ===== src/Sse.antt =====
-- internal/sse: the hub of server-sent events.
pub mod Hub
