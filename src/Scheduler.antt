-- ===== src/Scheduler.antt =====
-- The process scheduler: src/scheduler.hpp.
pub mod Prc
pub mod Table
pub mod Startup
mod Tests
