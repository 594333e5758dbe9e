-- ===== src/Tools.antt =====
-- internal/tools: the tool gateway, its slot tokens and its confirmation store.
pub mod Types
pub mod Confirmations
pub mod Tokens
pub mod Json
pub mod Outcome
pub mod Gateway
mod Tests
mod GatewayTests
