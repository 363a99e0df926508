-- ===== src/Bootstrap.antt =====
-- internal/bootstrap without the parser: the options of a registration and the server.
pub mod Options
pub mod Server
