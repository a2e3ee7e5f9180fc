-- ===== src/Platform.antt =====
-- src/lapcare/platform/: how the providers reach files, tools and the database.
pub mod Files
pub mod Subprocess
pub mod History
pub mod Scheduler
pub mod Report
mod Tests
