-- ===== src/Firmware.antt =====
-- The WMI and ACPI calls of driver/legion-laptop.c. The firmware behind them is a parameter; the
-- wrappers are the source's, with every error path. All operations run over the driver's state.
pub mod State
pub mod Keeps
pub mod Runs
pub mod Raises
pub mod Wmi
pub mod Acpi
pub mod Simple
pub mod Other
