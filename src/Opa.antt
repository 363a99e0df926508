-- ===== src/Opa.antt =====
-- internal/middleware/opa: the caller that asks an OPA agent over NATS whether a request may pass.
pub mod Json
pub mod Agent
pub mod Verdict
pub mod Decision
pub mod Connect
