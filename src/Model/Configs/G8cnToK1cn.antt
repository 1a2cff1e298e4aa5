-- ===== src/Model/Configs/G8cnToK1cn.antt =====
-- Model configurations of driver/legion-laptop.c, from `model_g8cn` to `model_k1cn`.
use sc_control.Base.{[], ◌∷◌, false, true}
use sc_control.Model.Registers.{ec_register_offsets_v0}
use sc_control.Model.Config.{
  ModelConfig, zero_config, ec4, wmi, wmi3, acpi_path_cfg, acpi_path_read_rapidcharge,
  acpi_path_sta, acpi_path_write_rapidcharge,
}

abbrev pub model_g8cn : ModelConfig
model_g8cn = record (zero_config 9 ec_register_offsets_v0) {
  check_embedded_controller_id = true;
  embedded_controller_id = 0x5507;
  memoryio_physical_ec_start = 0xc400;
  memoryio_size = 0x300;
  has_minifancurve = true;
  has_custom_powermode = true;
  access_method_powermode = wmi;
  access_method_keyboard = wmi;
  access_method_fanspeed = wmi3;
  access_method_temperature = wmi3;
  access_method_fancurve = wmi3;
  access_method_fanfullspeed = wmi;
  acpi_check_dev = true;
  ramio_physical_start = 0xfe0b0400;
  ramio_size = 0x600;
}

abbrev pub model_n2cn : ModelConfig
model_n2cn = record (zero_config 10 ec_register_offsets_v0) {
  check_embedded_controller_id = true;
  embedded_controller_id = 0x5507;
  memoryio_physical_ec_start = 0xc400;
  memoryio_size = 0x300;
  has_minifancurve = false;
  has_custom_powermode = true;
  access_method_powermode = wmi;
  access_method_keyboard = wmi;
  access_method_fanspeed = wmi3;
  access_method_temperature = wmi3;
  access_method_fancurve = wmi3;
  access_method_fanfullspeed = wmi3;
  acpi_check_dev = true;
  ramio_physical_start = 0xfe0b0400;
  ramio_size = 0x600;
  wmi_fancurve_speed_only = true;
  require_unlocked_fan_controller = true;
  acpi_paths =
      (acpi_path_sta, "\\_SB.PC00.LPCB.EC0.VPC0._STA")
      ∷ (acpi_path_cfg, "\\_SB.PC00.LPCB.EC0.VPC0._CFG")
      ∷ (acpi_path_read_rapidcharge, "\\_SB.PC00.LPCB.EC0.VPC0.GBMD")
      ∷ (acpi_path_write_rapidcharge, "\\_SB.PC00.LPCB.EC0.VPC0.SBMC")
      ∷ [];
}

abbrev pub model_nmcn : ModelConfig
model_nmcn = record (zero_config 11 ec_register_offsets_v0) {
  check_embedded_controller_id = true;
  embedded_controller_id = 0x5507;
  memoryio_physical_ec_start = 0xc400;
  memoryio_size = 0x300;
  has_minifancurve = false;
  has_custom_powermode = true;
  access_method_powermode = wmi;
  access_method_keyboard = wmi;
  access_method_fanspeed = wmi3;
  access_method_temperature = wmi3;
  access_method_fancurve = ec4;
  access_method_fanfullspeed = ec4;
  access_method_powerlimits = wmi3;
  acpi_check_dev = false;
  ramio_physical_start = 0xfe0b0400;
  ramio_size = 0x600;
  acpi_paths =
      (acpi_path_read_rapidcharge, "\\_SB.PC00.LPCB.EC0.VPC0.GBMD")
      ∷ (acpi_path_write_rapidcharge, "\\_SB.PC00.LPCB.EC0.VPC0.SBMC")
      ∷ [];
}

abbrev pub model_nxcn : ModelConfig
model_nxcn = record (zero_config 12 ec_register_offsets_v0) {
  check_embedded_controller_id = true;
  embedded_controller_id = 0x5263;
  memoryio_physical_ec_start = 0xc400;
  memoryio_size = 0x300;
  has_minifancurve = true;
  has_custom_powermode = true;
  access_method_powermode = wmi;
  access_method_keyboard = wmi;
  access_method_fanspeed = wmi3;
  access_method_temperature = wmi3;
  access_method_fancurve = wmi3;
  access_method_fanfullspeed = wmi;
  acpi_check_dev = true;
  ramio_physical_start = 0xfe0b0400;
  ramio_size = 0x600;
}

abbrev pub model_m0cn : ModelConfig
model_m0cn = record (zero_config 13 ec_register_offsets_v0) {
  check_embedded_controller_id = true;
  embedded_controller_id = 0x5507;
  memoryio_physical_ec_start = 0xc400;
  memoryio_size = 0x300;
  has_minifancurve = true;
  has_custom_powermode = true;
  access_method_powermode = wmi;
  access_method_keyboard = wmi;
  access_method_fanspeed = wmi3;
  access_method_temperature = wmi3;
  access_method_fancurve = wmi3;
  access_method_fanfullspeed = wmi;
  acpi_check_dev = false;
  ramio_physical_start = 0xfe0b0400;
  ramio_size = 0x600;
}

abbrev pub model_m1cn : ModelConfig
model_m1cn = record (zero_config 14 ec_register_offsets_v0) {
  check_embedded_controller_id = true;
  embedded_controller_id = 0x5507;
  memoryio_physical_ec_start = 0xc400;
  memoryio_size = 0x300;
  has_minifancurve = true;
  has_custom_powermode = true;
  access_method_powermode = wmi;
  access_method_keyboard = wmi;
  access_method_fanspeed = wmi3;
  access_method_temperature = wmi3;
  access_method_fancurve = wmi3;
  access_method_fanfullspeed = wmi;
  acpi_check_dev = false;
  ramio_physical_start = 0xfe0b0400;
  ramio_size = 0x600;
}

abbrev pub model_m2cn : ModelConfig
model_m2cn = record (zero_config 15 ec_register_offsets_v0) {
  check_embedded_controller_id = true;
  embedded_controller_id = 0x8227;
  memoryio_physical_ec_start = 0xc400;
  memoryio_size = 0x300;
  has_minifancurve = true;
  has_custom_powermode = true;
  access_method_powermode = wmi;
  access_method_keyboard = wmi;
  access_method_fanspeed = wmi3;
  access_method_temperature = wmi3;
  access_method_fancurve = wmi3;
  access_method_fanfullspeed = wmi;
  acpi_check_dev = false;
  ramio_physical_start = 0xfe0b0400;
  ramio_size = 0x600;
}

abbrev pub model_m6cn : ModelConfig
model_m6cn = record (zero_config 16 ec_register_offsets_v0) {
  check_embedded_controller_id = true;
  embedded_controller_id = 0x8227;
  memoryio_physical_ec_start = 0xc400;
  memoryio_size = 0x300;
  has_minifancurve = true;
  has_custom_powermode = true;
  access_method_powermode = wmi;
  access_method_keyboard = wmi;
  access_method_fanspeed = wmi3;
  access_method_temperature = wmi3;
  access_method_fancurve = wmi3;
  access_method_fanfullspeed = wmi;
  acpi_check_dev = false;
  ramio_physical_start = 0xfe0b0400;
  ramio_size = 0x600;
}

abbrev pub model_k1cn : ModelConfig
model_k1cn = record (zero_config 17 ec_register_offsets_v0) {
  check_embedded_controller_id = true;
  embedded_controller_id = 0x5263;
  memoryio_physical_ec_start = 0xc400;
  memoryio_size = 0x300;
  has_minifancurve = false;
  has_custom_powermode = true;
  access_method_powermode = wmi;
  access_method_keyboard = wmi;
  access_method_fanspeed = wmi3;
  access_method_temperature = wmi3;
  access_method_fancurve = wmi3;
  access_method_fanfullspeed = wmi;
  acpi_check_dev = true;
  ramio_physical_start = 0xfe0b0400;
  ramio_size = 0x600;
}
