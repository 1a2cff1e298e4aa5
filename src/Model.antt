-- ===== src/Model.antt =====
-- The description of the laptop models: EC registers, configurations, the DMI allowlist.
pub mod Registers
pub mod Config
pub mod Configs
pub mod Allowlist
