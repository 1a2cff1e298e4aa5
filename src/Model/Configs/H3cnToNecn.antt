-- ===== src/Model/Configs/H3cnToNecn.antt =====
-- Model configurations of driver/legion-laptop.c, from `model_h3cn` to `model_necn`.
use sc_control.Base.{[], ◌∷◌, false, true}
use sc_control.Model.Registers.{
  ec_register_offsets_ideapad_v0, ec_register_offsets_loq_v0, ec_register_offsets_v0,
  ec_register_offsets_v1,
}
use sc_control.Model.Config.{
  ModelConfig, zero_config, ec, ec3, no_access, wmi, wmi2, wmi3, acpi_path_cfg,
  acpi_path_read_rapidcharge, acpi_path_sta, acpi_path_write_rapidcharge,
}

abbrev pub model_h3cn : ModelConfig
model_h3cn = record (zero_config 27 ec_register_offsets_ideapad_v0) {
  check_embedded_controller_id = false;
  embedded_controller_id = 0x8227;
  memoryio_physical_ec_start = 0xc400;
  memoryio_size = 0x300;
  has_minifancurve = false;
  has_custom_powermode = false;
  access_method_powermode = wmi;
  access_method_keyboard = no_access;
  access_method_fanspeed = no_access;
  access_method_temperature = wmi;
  access_method_fancurve = no_access;
  access_method_fanfullspeed = wmi;
  acpi_check_dev = false;
  ramio_physical_start = 0xfe0b0800;
  ramio_size = 0x600;
}

abbrev pub model_e9cn : ModelConfig
model_e9cn = record (zero_config 28 ec_register_offsets_v1) {
  check_embedded_controller_id = false;
  embedded_controller_id = 0x8227;
  memoryio_physical_ec_start = 0xc400;
  memoryio_size = 0x300;
  has_minifancurve = false;
  has_custom_powermode = false;
  access_method_powermode = wmi;
  access_method_keyboard = no_access;
  access_method_fanspeed = wmi;
  access_method_temperature = wmi;
  access_method_fancurve = no_access;
  access_method_fanfullspeed = wmi;
  acpi_check_dev = false;
  ramio_physical_start = 0xfc7e0800;
  ramio_size = 0x600;
}

abbrev pub model_8jcn : ModelConfig
model_8jcn = record (zero_config 29 ec_register_offsets_v0) {
  check_embedded_controller_id = true;
  embedded_controller_id = 0x8226;
  memoryio_physical_ec_start = 0xc400;
  memoryio_size = 0x300;
  has_minifancurve = true;
  has_custom_powermode = true;
  access_method_powermode = wmi;
  access_method_keyboard = wmi;
  access_method_fanspeed = wmi;
  access_method_temperature = wmi;
  access_method_fancurve = ec;
  access_method_fanfullspeed = wmi;
  acpi_check_dev = false;
  ramio_physical_start = 0xfe00d400;
  ramio_size = 0x600;
}

abbrev pub model_jncn : ModelConfig
model_jncn = record (zero_config 30 ec_register_offsets_v1) {
  check_embedded_controller_id = false;
  embedded_controller_id = 0x8227;
  memoryio_physical_ec_start = 0xc400;
  memoryio_size = 0x300;
  has_minifancurve = false;
  has_custom_powermode = false;
  access_method_powermode = wmi;
  access_method_keyboard = no_access;
  access_method_fanspeed = wmi;
  access_method_temperature = wmi;
  access_method_fancurve = no_access;
  access_method_fanfullspeed = wmi;
  acpi_check_dev = false;
  ramio_physical_start = 0xfc7e0800;
  ramio_size = 0x600;
}

abbrev pub model_j1cn : ModelConfig
model_j1cn = record (zero_config 31 ec_register_offsets_v0) {
  check_embedded_controller_id = true;
  embedded_controller_id = 0x8227;
  memoryio_physical_ec_start = 0xc400;
  memoryio_size = 0x300;
  has_minifancurve = true;
  has_custom_powermode = true;
  access_method_powermode = wmi;
  access_method_keyboard = wmi;
  access_method_fanspeed = ec;
  access_method_temperature = ec;
  access_method_fancurve = ec;
  access_method_fanfullspeed = wmi;
  acpi_check_dev = true;
  ramio_physical_start = 0xfe0b0400;
  ramio_size = 0x600;
}

abbrev pub model_dmcn : ModelConfig
model_dmcn = record (zero_config 32 ec_register_offsets_v0) {
  check_embedded_controller_id = true;
  embedded_controller_id = 0x8227;
  memoryio_physical_ec_start = 0xc400;
  memoryio_size = 0x300;
  has_minifancurve = true;
  has_custom_powermode = true;
  access_method_powermode = wmi;
  access_method_keyboard = wmi;
  access_method_fanspeed = ec;
  access_method_temperature = ec;
  access_method_fancurve = ec;
  access_method_fanfullspeed = wmi;
  acpi_check_dev = true;
  ramio_physical_start = 0xfe700d00;
  ramio_size = 0x600;
}

abbrev pub model_khcn : ModelConfig
model_khcn = record (zero_config 33 ec_register_offsets_v0) {
  check_embedded_controller_id = false;
  embedded_controller_id = 0x8227;
  memoryio_physical_ec_start = 0xc400;
  memoryio_size = 0x300;
  has_minifancurve = true;
  has_custom_powermode = true;
  access_method_powermode = ec;
  access_method_keyboard = wmi;
  access_method_fanspeed = ec;
  access_method_temperature = ec;
  access_method_fancurve = ec;
  access_method_fanfullspeed = wmi;
  acpi_check_dev = false;
  ramio_physical_start = 0xfe0b0400;
  ramio_size = 0x600;
}

abbrev pub model_lzcn : ModelConfig
model_lzcn = record (zero_config 34 ec_register_offsets_loq_v0) {
  check_embedded_controller_id = true;
  embedded_controller_id = 0x8227;
  memoryio_physical_ec_start = 0xc400;
  memoryio_size = 0x300;
  has_minifancurve = true;
  has_custom_powermode = true;
  has_extreme_powermode = true;
  access_method_powermode = wmi;
  access_method_keyboard = wmi2;
  access_method_fanspeed = wmi3;
  access_method_temperature = wmi3;
  access_method_fancurve = ec3;
  access_method_fanfullspeed = wmi3;
  access_method_powerlimits = wmi3;
  acpi_check_dev = false;
  ramio_physical_start = 0xfe0b0f00;
  ramio_size = 0x600;
  has_fancurve_defaults = true;
  acpi_paths =
      (acpi_path_sta, "\\_SB.PC00.LPCB.EC0.VPC0._STA")
      ∷ (acpi_path_cfg, "\\_SB.PC00.LPCB.EC0.VPC0._CFG")
      ∷ (acpi_path_read_rapidcharge, "\\_SB.PC00.LPCB.EC0.VPC0.GBMD")
      ∷ (acpi_path_write_rapidcharge, "\\_SB.PC00.LPCB.EC0.VPC0.SBMC")
      ∷ [];
}

abbrev pub model_necn : ModelConfig
model_necn = record (zero_config 35 ec_register_offsets_loq_v0) {
  check_embedded_controller_id = true;
  embedded_controller_id = 0x8227;
  memoryio_physical_ec_start = 0xc400;
  memoryio_size = 0x300;
  has_minifancurve = true;
  has_custom_powermode = true;
  has_extreme_powermode = true;
  access_method_powermode = wmi;
  access_method_keyboard = wmi2;
  access_method_fanspeed = wmi3;
  access_method_temperature = wmi3;
  access_method_fancurve = ec3;
  access_method_fanfullspeed = wmi3;
  acpi_check_dev = false;
  ramio_physical_start = 0xfe0b0f00;
  ramio_size = 0x600;
}
