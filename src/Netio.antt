-- ===== src/Netio.antt =====
-- internal/common/netio: messages, their updaters, the order of callers, and the cascade.
pub mod Header
pub mod Message
pub mod Clone
pub mod Request
pub mod Response
pub mod Written
pub mod Sort
pub mod Exec
pub mod Keeps
pub mod Caller
pub mod Cascade
pub mod Copies
pub mod Spared
