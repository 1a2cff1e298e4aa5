-- ===== src/PowerLimits/Feature.antt =====
-- The ids of the limits in `enum OtherMethodFeature`.
use sc_control.Base.{ℕ}

abbrev pub cpu_short_term_power_limit : ℕ
cpu_short_term_power_limit = 0x01010000

abbrev pub cpu_long_term_power_limit : ℕ
cpu_long_term_power_limit = 0x01020000

abbrev pub cpu_peak_power_limit : ℕ
cpu_peak_power_limit = 0x01030000

abbrev pub cpu_temperature_limit : ℕ
cpu_temperature_limit = 0x01040000

abbrev pub apu_ppt_power_limit : ℕ
apu_ppt_power_limit = 0x01050000

abbrev pub cpu_cross_load_power_limit : ℕ
cpu_cross_load_power_limit = 0x01060000

abbrev pub cpu_l1_tau : ℕ
cpu_l1_tau = 0x01070000

abbrev pub gpu_power_boost : ℕ
gpu_power_boost = 0x02010000

abbrev pub gpu_ctgp : ℕ
gpu_ctgp = 0x02020000

abbrev pub gpu_temperature_limit : ℕ
gpu_temperature_limit = 0x02030000

abbrev pub gpu_power_target_on_ac_offset : ℕ
gpu_power_target_on_ac_offset = 0x02040000
