-- ===== src/Cache.antt =====
-- internal/middleware/cache.
pub mod Key
pub mod Store
pub mod Connect
