-- ===== src/Parser.antt =====
-- internal/bootstrap/parser/parser.go: from the configuration to callers.
pub mod Timeout
pub mod Level
pub mod Conf
pub mod Policy
pub mod Filters
pub mod Runtime
pub mod Resources
pub mod Document
