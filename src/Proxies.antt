-- ===== src/Proxies.antt =====
-- internal/callers/proxies.
pub mod Http
pub mod WebSocket
