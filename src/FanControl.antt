-- ===== src/FanControl.antt =====
-- Fan control of driver/legion-laptop.c: the switches in EC registers, the fan curve by the model's
-- access method with its cache, and the sysfs stores over them.
pub mod Switches
pub mod FullSpeed
pub mod WmiTable
pub mod Keeps
pub mod Curve
pub mod Autopoint
pub mod Reachable
