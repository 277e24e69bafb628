-- ===== src/Gateway.antt =====
-- infra/ai-gateway: the routing policy, the provider pool and the chat routes of the gateway.
pub mod Json
pub mod Specs
pub mod Policy
pub mod Pool
pub mod World
pub mod Readiness
pub mod Chat
pub mod Serverless
