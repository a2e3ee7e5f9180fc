-- ===== src/Ui.antt =====
-- src/lapcare/ui/pages/: the view-models, which hold what a page shows. A handler is a function from
-- the page's state to the new state.
pub mod Text
pub mod Page
pub mod Firmware
pub mod Storage
pub mod Hardware
pub mod Dashboard
pub mod Cards
pub mod Render
pub mod Diagnostics
pub mod Battery
pub mod LiveUpdates
pub mod Window
mod Tests
mod Samples
