-- ===== src/Core/Diagnostics.antt =====
-- src/lapcare/core/diagnostics.py
pub mod Checks
pub mod Score
pub mod Gather
