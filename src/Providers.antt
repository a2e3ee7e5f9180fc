-- ===== src/Providers.antt =====
-- src/lapcare/providers/: the implementations of the ports.
pub mod StorageSmart
pub mod BatterySysfs
pub mod DiskUsage
pub mod Hwmon
pub mod Dmi
pub mod Thinkpad
pub mod OsInfo
pub mod PciUsb
pub mod Fwupd
pub mod Upower
mod Tests
mod Laptop
mod Samples
