-- ===== src/Tasks.antt =====
-- Commands, background tasks and parallel loops: src/utils/handler.cpp and src/utils/handler.hpp.
pub mod Command
pub mod Chunks
pub mod Pool
pub mod Handler
mod Tests
