-- ===== src/PowerMode.antt =====
-- The power mode of driver/legion-laptop.c: its codes in the EC and in WMI, reading, writing and
-- toggling it, and the platform profile.
pub mod Codes
pub mod Access
pub mod Laws
pub mod ProfileLaws
pub mod Store
