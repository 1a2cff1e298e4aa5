-- ===== src/Model/Registers.antt =====
-- `struct ec_register_offsets` of driver/legion-laptop.c and its seven tables of EC RAM addresses.
use sc_control.Base.{ℕ}

-- The offsets of interesting values inside the EC RAM.
pub record EcRegisterOffsets : Type 0 where
  pub echipid1 : ℕ
  pub echipid2 : ℕ
  pub echipver : ℕ
  pub ecdebug : ℕ
  pub ext_fan_cur_point : ℕ
  pub ext_fan_points_size : ℕ
  pub ext_fan1_base : ℕ
  pub ext_fan2_base : ℕ
  pub ext_fan_acc_base : ℕ
  pub ext_fan_dec_base : ℕ
  pub ext_cpu_temp : ℕ
  pub ext_cpu_temp_hyst : ℕ
  pub ext_gpu_temp : ℕ
  pub ext_gpu_temp_hyst : ℕ
  pub ext_vrm_temp : ℕ
  pub ext_vrm_temp_hyst : ℕ
  pub ext_fan1_rpm_lsb : ℕ
  pub ext_fan1_rpm_msb : ℕ
  pub ext_fan2_rpm_lsb : ℕ
  pub ext_fan2_rpm_msb : ℕ
  pub ext_fan1_target_rpm : ℕ
  pub ext_fan2_target_rpm : ℕ
  pub ext_powermode : ℕ
  pub ext_minifancurve_on_cool : ℕ
  pub ext_lockfancontroller : ℕ
  pub ext_maximumfanspeed : ℕ
  pub ext_white_keyboard_backlight : ℕ
  pub ext_ic_temp_input : ℕ
  pub ext_cpu_temp_input : ℕ
  pub ext_gpu_temp_input : ℕ

abbrev pub ec_register_offsets_v0 : EcRegisterOffsets
ec_register_offsets_v0 = record {
  echipid1 = 0x2000;
  echipid2 = 0x2001;
  echipver = 0x2002;
  ecdebug = 0x2003;
  ext_fan_cur_point = 0xc534;
  ext_fan_points_size = 0xc535;
  ext_fan1_base = 0xc540;
  ext_fan2_base = 0xc550;
  ext_fan_acc_base = 0xc560;
  ext_fan_dec_base = 0xc570;
  ext_cpu_temp = 0xc580;
  ext_cpu_temp_hyst = 0xc590;
  ext_gpu_temp = 0xc5a0;
  ext_gpu_temp_hyst = 0xc5b0;
  ext_vrm_temp = 0xc5c0;
  ext_vrm_temp_hyst = 0xc5d0;
  ext_fan1_rpm_lsb = 0xc5e0;
  ext_fan1_rpm_msb = 0xc5e1;
  ext_fan2_rpm_lsb = 0xc5e2;
  ext_fan2_rpm_msb = 0xc5e3;
  ext_fan1_target_rpm = 0xc600;
  ext_fan2_target_rpm = 0xc601;
  ext_powermode = 0xc420;
  ext_minifancurve_on_cool = 0xc536;
  ext_lockfancontroller = 0xc4ab;
  ext_maximumfanspeed = 0xbd;
  ext_white_keyboard_backlight = 0xc43b;
  ext_ic_temp_input = 0xc5e8;
  ext_cpu_temp_input = 0xc538;
  ext_gpu_temp_input = 0xc539;
}

abbrev pub ec_register_offsets_rzcn : EcRegisterOffsets
ec_register_offsets_rzcn = record {
  echipid1 = 0x2000;
  echipid2 = 0x2001;
  echipver = 0x2002;
  ecdebug = 0x2003;
  ext_fan_cur_point = 0xc534;
  ext_fan_points_size = 0xc535;
  ext_fan1_base = 0xc540;
  ext_fan2_base = 0xc550;
  ext_fan_acc_base = 0xc560;
  ext_fan_dec_base = 0xc570;
  ext_cpu_temp = 0xc580;
  ext_cpu_temp_hyst = 0xc590;
  ext_gpu_temp = 0xc5a0;
  ext_gpu_temp_hyst = 0xc5b0;
  ext_vrm_temp = 0xc5c0;
  ext_vrm_temp_hyst = 0xc5d0;
  ext_fan1_rpm_lsb = 0xc5e0;
  ext_fan1_rpm_msb = 0xc5e1;
  ext_fan2_rpm_lsb = 0xc5e2;
  ext_fan2_rpm_msb = 0xc5e3;
  ext_fan1_target_rpm = 0xc5a0;
  ext_fan2_target_rpm = 0xc5a1;
  ext_powermode = 0xc420;
  ext_minifancurve_on_cool = 0xc536;
  ext_lockfancontroller = 0xc4ab;
  ext_maximumfanspeed = 0xbd;
  ext_white_keyboard_backlight = 0xc43b;
  ext_ic_temp_input = 0xc5e8;
  ext_cpu_temp_input = 0xc538;
  ext_gpu_temp_input = 0xc539;
}

abbrev pub ec_register_offsets_v1 : EcRegisterOffsets
ec_register_offsets_v1 = record {
  echipid1 = 0x2000;
  echipid2 = 0x2001;
  echipver = 0x2002;
  ecdebug = 0x2003;
  ext_fan_cur_point = 0xc534;
  ext_fan_points_size = 0xc535;
  ext_fan1_base = 0xc540;
  ext_fan2_base = 0xc550;
  ext_fan_acc_base = 0xc560;
  ext_fan_dec_base = 0xc570;
  ext_cpu_temp = 0xc580;
  ext_cpu_temp_hyst = 0xc590;
  ext_gpu_temp = 0xc5a0;
  ext_gpu_temp_hyst = 0xc5b0;
  ext_vrm_temp = 0xc5c0;
  ext_vrm_temp_hyst = 0xc5d0;
  ext_fan1_rpm_lsb = 0xc5e0;
  ext_fan1_rpm_msb = 0xc5e1;
  ext_fan2_rpm_lsb = 0xc5e2;
  ext_fan2_rpm_msb = 0xc5e3;
  ext_fan1_target_rpm = 0xc600;
  ext_fan2_target_rpm = 0xc601;
  ext_powermode = 0xc41d;
  ext_minifancurve_on_cool = 0xc536;
  ext_lockfancontroller = 0xc4ab;
  ext_maximumfanspeed = 0xbd;
  ext_white_keyboard_backlight = 0xc43b;
  ext_ic_temp_input = 0xc5e8;
  ext_cpu_temp_input = 0xc538;
  ext_gpu_temp_input = 0xc539;
}

abbrev pub ec_register_offsets_ideapad_v0 : EcRegisterOffsets
ec_register_offsets_ideapad_v0 = record {
  echipid1 = 0x2000;
  echipid2 = 0x2001;
  echipver = 0x2002;
  ecdebug = 0x2003;
  ext_fan_cur_point = 0xc5a0;
  ext_fan_points_size = 0xc5a0;
  ext_fan1_base = 0xc5a0;
  ext_fan2_base = 0xc5a8;
  ext_fan_acc_base = 0xc5a0;
  ext_fan_dec_base = 0xc5a0;
  ext_cpu_temp = 0xc550;
  ext_cpu_temp_hyst = 0xc590;
  ext_gpu_temp = 0xc5c0;
  ext_gpu_temp_hyst = 0xc5d0;
  ext_vrm_temp = 0xc5a0;
  ext_vrm_temp_hyst = 0xc5a0;
  ext_fan1_rpm_lsb = 0xc5a0;
  ext_fan1_rpm_msb = 0xc5a0;
  ext_fan2_rpm_lsb = 0xc5a0;
  ext_fan2_rpm_msb = 0xc5a0;
  ext_fan1_target_rpm = 0xc5a0;
  ext_fan2_target_rpm = 0xc5a0;
  ext_powermode = 0xc5a0;
  ext_minifancurve_on_cool = 0xc5a0;
  ext_lockfancontroller = 0xc5a0;
  ext_maximumfanspeed = 0xc5a0;
  ext_white_keyboard_backlight = 0xc5a0;
  ext_ic_temp_input = 0xc5a0;
  ext_cpu_temp_input = 0xc5a0;
  ext_gpu_temp_input = 0xc5a0;
}

abbrev pub ec_register_offsets_ideapad_v1 : EcRegisterOffsets
ec_register_offsets_ideapad_v1 = record {
  echipid1 = 0x2000;
  echipid2 = 0x2001;
  echipver = 0x2002;
  ecdebug = 0x2003;
  ext_fan_cur_point = 0xc5a0;
  ext_fan_points_size = 0xc5a0;
  ext_fan1_base = 0xc5a0;
  ext_fan2_base = 0xc5a8;
  ext_fan_acc_base = 0xc5a0;
  ext_fan_dec_base = 0xc5a0;
  ext_cpu_temp = 0xc550;
  ext_cpu_temp_hyst = 0xc590;
  ext_gpu_temp = 0xc5c0;
  ext_gpu_temp_hyst = 0xc5d0;
  ext_vrm_temp = 0xc5a0;
  ext_vrm_temp_hyst = 0xc5a0;
  ext_fan1_rpm_lsb = 0xc5a0;
  ext_fan1_rpm_msb = 0xc5a0;
  ext_fan2_rpm_lsb = 0xc5a0;
  ext_fan2_rpm_msb = 0xc5a0;
  ext_fan1_target_rpm = 0xc5a0;
  ext_fan2_target_rpm = 0xc5a0;
  ext_powermode = 0xc5a0;
  ext_minifancurve_on_cool = 0xc5a0;
  ext_lockfancontroller = 0xc5a0;
  ext_maximumfanspeed = 0xc5a0;
  ext_white_keyboard_backlight = 0xc5a0;
  ext_ic_temp_input = 0xc5a0;
  ext_cpu_temp_input = 0xc5a0;
  ext_gpu_temp_input = 0xc5a0;
}

abbrev pub ec_register_offsets_loq_v0 : EcRegisterOffsets
ec_register_offsets_loq_v0 = record {
  echipid1 = 0x2000;
  echipid2 = 0x2001;
  echipver = 0x2002;
  ecdebug = 0x2003;
  ext_fan_cur_point = 0xc5a0;
  ext_fan_points_size = 0xc5a0;
  ext_fan1_base = 0xcf02;
  ext_fan2_base = 0xcf3e;
  ext_fan_acc_base = 0xc5a0;
  ext_fan_dec_base = 0xc5a0;
  ext_cpu_temp = 0xcf01;
  ext_cpu_temp_hyst = 0xcf00;
  ext_gpu_temp = 0xcf3d;
  ext_gpu_temp_hyst = 0xcf3c;
  ext_vrm_temp = 0xcf79;
  ext_vrm_temp_hyst = 0xcf78;
  ext_fan1_rpm_lsb = 0xc509;
  ext_fan1_rpm_msb = 0xc5a0;
  ext_fan2_rpm_lsb = 0xc530;
  ext_fan2_rpm_msb = 0xc5a0;
  ext_fan1_target_rpm = 0xc5a0;
  ext_fan2_target_rpm = 0xc5a0;
  ext_powermode = 0xc40a;
  ext_minifancurve_on_cool = 0xc5a0;
  ext_lockfancontroller = 0xc5a0;
  ext_maximumfanspeed = 0xc5a0;
  ext_white_keyboard_backlight = 0xc5a0;
  ext_ic_temp_input = 0xc5a0;
  ext_cpu_temp_input = 0xc5a0;
  ext_gpu_temp_input = 0xc5a0;
}

abbrev pub ec_register_offsets_loq_v1 : EcRegisterOffsets
ec_register_offsets_loq_v1 = record {
  echipid1 = 0x2000;
  echipid2 = 0x2001;
  echipver = 0x2002;
  ecdebug = 0x2003;
  ext_fan_cur_point = 0xc5a0;
  ext_fan_points_size = 0xc5a0;
  ext_fan1_base = 0xcf02;
  ext_fan2_base = 0xcf3e;
  ext_fan_acc_base = 0xc5a0;
  ext_fan_dec_base = 0xc5a0;
  ext_cpu_temp = 0xcf01;
  ext_cpu_temp_hyst = 0xcf00;
  ext_gpu_temp = 0xcf3d;
  ext_gpu_temp_hyst = 0xcf3c;
  ext_vrm_temp = 0xcf79;
  ext_vrm_temp_hyst = 0xcf78;
  ext_fan1_rpm_lsb = 0xc509;
  ext_fan1_rpm_msb = 0xc5a0;
  ext_fan2_rpm_lsb = 0xc53c;
  ext_fan2_rpm_msb = 0xc5a0;
  ext_fan1_target_rpm = 0xc5a0;
  ext_fan2_target_rpm = 0xc5a0;
  ext_powermode = 0xc40a;
  ext_minifancurve_on_cool = 0xc5a0;
  ext_lockfancontroller = 0xc5a0;
  ext_maximumfanspeed = 0xc5a0;
  ext_white_keyboard_backlight = 0xc5a0;
  ext_ic_temp_input = 0xc5a0;
  ext_cpu_temp_input = 0xc5a0;
  ext_gpu_temp_input = 0xc5a0;
}
