-- ===== src/Scheduling.antt =====
-- internal/scheduling/engine.go: the availability engine.
pub mod Intervals
pub mod Calendar
pub mod Input
pub mod Engine
mod Tests
