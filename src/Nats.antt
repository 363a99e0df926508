-- ===== src/Nats.antt =====
-- What the gateway's parts share of NATS.
pub mod Host
pub mod Kv
pub mod Broker
pub mod Conn
