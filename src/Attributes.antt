-- ===== src/Attributes.antt =====
-- The sysfs attributes of the driver that are a switch, a number of the firmware, or a variable of the
-- driver. A store takes what the kernel's number parsing made of the text.
pub mod Simple
pub mod Wmi
pub mod RoundTrip
pub mod Battery
pub mod Fans
pub mod FlipToStart
