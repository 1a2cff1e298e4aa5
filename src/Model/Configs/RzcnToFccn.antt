-- ===== src/Model/Configs/RzcnToFccn.antt =====
-- Model configurations of driver/legion-laptop.c, from `model_rzcn` to `model_fccn`.
use sc_control.Base.{[], ◌∷◌, false, true}
use sc_control.Model.Registers.{
  ec_register_offsets_ideapad_v0, ec_register_offsets_rzcn, ec_register_offsets_v0,
  ec_register_offsets_v1,
}
use sc_control.Model.Config.{
  ModelConfig, zero_config, acpi, ec, ec2, no_access, wmi, wmi3, acpi_path_cfg,
  acpi_path_read_rapidcharge, acpi_path_sta, acpi_path_write_rapidcharge,
}

abbrev pub model_rzcn : ModelConfig
model_rzcn = record (zero_config 18 ec_register_offsets_rzcn) {
  check_embedded_controller_id = true;
  embedded_controller_id = 0x5263;
  memoryio_physical_ec_start = 0xc400;
  memoryio_size = 0x300;
  has_minifancurve = false;
  has_custom_powermode = true;
  access_method_powermode = wmi;
  access_method_keyboard = no_access;
  access_method_fanspeed = acpi;
  access_method_temperature = wmi3;
  access_method_fancurve = no_access;
  access_method_fanfullspeed = no_access;
  skip_ic_temp = true;
  skip_oc_controls = true;
  acpi_fanspeed_is_rpm = true;
  fan_target_is_duty = true;
  has_four_fans = true;
  skip_ylogo_light = true;
  skip_ioport_light = true;
  acpi_check_dev = true;
  ramio_physical_start = 0xfe0b0400;
  ramio_size = 0x600;
}

abbrev pub model_nscn : ModelConfig
model_nscn = record (zero_config 19 ec_register_offsets_v0) {
  check_embedded_controller_id = true;
  embedded_controller_id = 0x5507;
  memoryio_physical_ec_start = 0xc400;
  memoryio_size = 0x300;
  has_minifancurve = false;
  has_custom_powermode = true;
  access_method_powermode = wmi;
  access_method_keyboard = no_access;
  access_method_fanspeed = wmi3;
  access_method_temperature = wmi3;
  access_method_fancurve = no_access;
  access_method_fanfullspeed = wmi;
  acpi_check_dev = false;
  ramio_physical_start = 0xfe0b0400;
  ramio_size = 0x600;
}

abbrev pub model_qncn : ModelConfig
model_qncn = record (zero_config 20 ec_register_offsets_v0) {
  check_embedded_controller_id = true;
  embedded_controller_id = 0x5508;
  memoryio_physical_ec_start = 0xc400;
  memoryio_size = 0x300;
  has_minifancurve = false;
  has_custom_powermode = true;
  access_method_powermode = wmi;
  access_method_keyboard = wmi;
  access_method_fanspeed = wmi3;
  access_method_temperature = wmi3;
  access_method_fancurve = no_access;
  access_method_fanfullspeed = wmi;
  acpi_check_dev = false;
  ramio_physical_start = 0xfe00d400;
  ramio_size = 0x600;
}

abbrev pub model_lpcn : ModelConfig
model_lpcn = record (zero_config 21 ec_register_offsets_v0) {
  check_embedded_controller_id = true;
  embedded_controller_id = 0x5507;
  memoryio_physical_ec_start = 0xc400;
  memoryio_size = 0x300;
  has_minifancurve = false;
  has_custom_powermode = true;
  access_method_powermode = wmi;
  access_method_keyboard = wmi;
  access_method_fanspeed = wmi3;
  access_method_temperature = wmi3;
  access_method_fancurve = wmi3;
  access_method_fanfullspeed = wmi;
  access_method_powerlimits = wmi3;
  acpi_check_dev = true;
  ramio_physical_start = 0xfe0b0400;
  ramio_size = 0x600;
  has_extreme_powermode = true;
  acpi_paths =
      (acpi_path_sta, "\\_SB.PCI0.LPC0.EC0.VPC0._STA")
      ∷ (acpi_path_cfg, "\\_SB.PCI0.LPC0.EC0.VPC0._CFG")
      ∷ (acpi_path_read_rapidcharge, "\\_SB.PCI0.LPC0.EC0.VPC0.GBMD")
      ∷ (acpi_path_write_rapidcharge, "\\_SB.PCI0.LPC0.EC0.VPC0.SBMC")
      ∷ [];
}

abbrev pub model_kfcn : ModelConfig
model_kfcn = record (zero_config 22 ec_register_offsets_v0) {
  check_embedded_controller_id = true;
  embedded_controller_id = 0x8227;
  memoryio_physical_ec_start = 0xc400;
  memoryio_size = 0x300;
  has_minifancurve = false;
  has_custom_powermode = true;
  access_method_powermode = wmi;
  access_method_keyboard = wmi;
  access_method_fanspeed = ec;
  access_method_temperature = ec;
  access_method_fancurve = ec;
  access_method_fanfullspeed = wmi;
  acpi_check_dev = true;
  ramio_physical_start = 0xfe00d400;
  ramio_size = 0x600;
}

abbrev pub model_hacn : ModelConfig
model_hacn = record (zero_config 23 ec_register_offsets_v0) {
  check_embedded_controller_id = false;
  embedded_controller_id = 0x8227;
  memoryio_physical_ec_start = 0xc400;
  memoryio_size = 0x300;
  has_minifancurve = true;
  has_custom_powermode = true;
  access_method_powermode = wmi;
  access_method_keyboard = wmi;
  access_method_fanspeed = ec;
  access_method_temperature = ec;
  access_method_fancurve = ec;
  access_method_fanfullspeed = wmi;
  acpi_check_dev = true;
  ramio_physical_start = 0xfe00d400;
  ramio_size = 0x600;
}

abbrev pub model_k9cn : ModelConfig
model_k9cn = record (zero_config 24 ec_register_offsets_v0) {
  check_embedded_controller_id = false;
  embedded_controller_id = 0x8227;
  memoryio_physical_ec_start = 0xc400;
  memoryio_size = 0x300;
  has_minifancurve = true;
  has_custom_powermode = true;
  access_method_powermode = wmi;
  access_method_keyboard = wmi;
  access_method_fanspeed = ec;
  access_method_temperature = ec;
  access_method_fancurve = ec;
  access_method_fanfullspeed = wmi;
  acpi_check_dev = true;
  ramio_physical_start = 0xfe00d400;
  ramio_size = 0x600;
}

abbrev pub model_eucn : ModelConfig
model_eucn = record (zero_config 25 ec_register_offsets_v1) {
  check_embedded_controller_id = true;
  embedded_controller_id = 0x8227;
  memoryio_physical_ec_start = 0xc400;
  memoryio_size = 0x300;
  has_minifancurve = true;
  has_custom_powermode = true;
  access_method_powermode = wmi;
  access_method_keyboard = wmi;
  access_method_fanspeed = ec;
  access_method_temperature = ec;
  access_method_fancurve = ec;
  access_method_fanfullspeed = wmi;
  acpi_check_dev = true;
  ramio_physical_start = 0xfe00d400;
  ramio_size = 0x600;
}

abbrev pub model_fccn : ModelConfig
model_fccn = record (zero_config 26 ec_register_offsets_ideapad_v0) {
  check_embedded_controller_id = true;
  embedded_controller_id = 0x8227;
  memoryio_physical_ec_start = 0xc400;
  memoryio_size = 0x300;
  has_minifancurve = false;
  has_custom_powermode = true;
  access_method_powermode = wmi;
  access_method_keyboard = wmi;
  access_method_fanspeed = wmi;
  access_method_temperature = acpi;
  access_method_fancurve = ec2;
  access_method_fanfullspeed = wmi;
  acpi_check_dev = true;
  ramio_physical_start = 0xfe00d400;
  ramio_size = 0x600;
}
