-- ===== src/Agent.antt =====
-- internal/agent: the bounded loop between the model and the tools, and its token budget.
pub mod Charge
pub mod Budget
pub mod Runner
mod Tests
mod RunnerTests
