-- ===== src/Core.antt =====
-- src/lapcare/core/: the domain logic, which does no input or output of its own.
pub mod Ports
pub mod Battery
pub mod Firmware
pub mod Report
pub mod Diagnostics
mod Tests
