-- ===== src/Filters.antt =====
-- internal/callers/filters.
pub mod Filter
pub mod Http
pub mod Message
pub mod Nats
pub mod Build
