-- ===== src/Model/Configs/NzcnToM3cn.antt =====
-- Model configurations of driver/legion-laptop.c, from `model_nzcn` to `model_m3cn`.
use sc_control.Base.{[], ◌∷◌, false, true}
use sc_control.Model.Registers.{
  ec_register_offsets_loq_v0, ec_register_offsets_loq_v1, ec_register_offsets_v0,
}
use sc_control.Model.Config.{
  ModelConfig, zero_config, ec3, no_access, wmi, wmi2, wmi3, acpi_path_cfg,
  acpi_path_read_rapidcharge, acpi_path_sta, acpi_path_write_rapidcharge,
}

abbrev pub model_nzcn : ModelConfig
model_nzcn = record (zero_config 36 ec_register_offsets_loq_v0) {
  check_embedded_controller_id = true;
  embedded_controller_id = 0x8227;
  memoryio_physical_ec_start = 0xc400;
  memoryio_size = 0x300;
  has_minifancurve = true;
  has_custom_powermode = true;
  has_extreme_powermode = true;
  access_method_powermode = wmi;
  access_method_keyboard = wmi2;
  access_method_fanspeed = wmi3;
  access_method_temperature = wmi3;
  access_method_fancurve = ec3;
  access_method_fanfullspeed = wmi3;
  acpi_check_dev = false;
  ramio_physical_start = 0xfe0b0f00;
  ramio_size = 0x600;
  has_fancurve_defaults = true;
  acpi_paths =
      (acpi_path_sta, "\\_SB.PC00.LPCB.EC0.VPC0._STA")
      ∷ (acpi_path_cfg, "\\_SB.PC00.LPCB.EC0.VPC0._CFG")
      ∷ [];
}

abbrev pub model_r8cn : ModelConfig
model_r8cn = record (zero_config 37 ec_register_offsets_loq_v1) {
  check_embedded_controller_id = true;
  embedded_controller_id = 0x5508;
  memoryio_physical_ec_start = 0xc400;
  memoryio_size = 0x300;
  has_minifancurve = true;
  has_custom_powermode = true;
  has_extreme_powermode = true;
  access_method_powermode = wmi;
  access_method_keyboard = wmi2;
  access_method_fanspeed = wmi3;
  access_method_temperature = wmi3;
  access_method_fancurve = ec3;
  access_method_fanfullspeed = wmi3;
  acpi_check_dev = false;
  ramio_physical_start = 0xfe0b0f00;
  ramio_size = 0x600;
  has_fancurve_defaults = true;
  acpi_paths =
      (acpi_path_sta, "\\_SB.PC00.LPCB.EC0.VPC0._STA")
      ∷ (acpi_path_cfg, "\\_SB.PC00.LPCB.EC0.VPC0._CFG")
      ∷ [];
}

abbrev pub model_t2cn : ModelConfig
model_t2cn = record (zero_config 38 ec_register_offsets_loq_v1) {
  check_embedded_controller_id = true;
  embedded_controller_id = 0x5509;
  memoryio_physical_ec_start = 0xc400;
  memoryio_size = 0x300;
  has_minifancurve = false;
  has_custom_powermode = true;
  has_extreme_powermode = true;
  access_method_powermode = wmi;
  access_method_keyboard = no_access;
  access_method_fanspeed = wmi3;
  access_method_temperature = wmi3;
  access_method_fancurve = wmi3;
  access_method_fanfullspeed = wmi3;
  acpi_check_dev = false;
  ramio_physical_start = 0xfe0b0f00;
  ramio_size = 0x600;
  skip_ylogo_light = true;
  skip_ioport_light = true;
  has_fancurve_defaults = true;
  acpi_paths =
      (acpi_path_sta, "\\_SB.PC00.LPCB.EC0.VPC0._STA")
      ∷ (acpi_path_cfg, "\\_SB.PC00.LPCB.EC0.VPC0._CFG")
      ∷ [];
}

abbrev pub model_recn : ModelConfig
model_recn = record (zero_config 39 ec_register_offsets_loq_v1) {
  check_embedded_controller_id = true;
  embedded_controller_id = 0x5508;
  memoryio_physical_ec_start = 0xc400;
  memoryio_size = 0x300;
  has_minifancurve = true;
  has_custom_powermode = true;
  has_extreme_powermode = true;
  access_method_powermode = wmi;
  access_method_keyboard = wmi2;
  access_method_fanspeed = wmi3;
  access_method_temperature = wmi3;
  access_method_fancurve = wmi3;
  access_method_fanfullspeed = wmi3;
  acpi_check_dev = false;
  ramio_physical_start = 0xfe0b0f00;
  ramio_size = 0x600;
  skip_ylogo_light = true;
  skip_ioport_light = true;
  has_fancurve_defaults = true;
  acpi_paths =
      (acpi_path_sta, "\\_SB.PCI0.LPC0.EC0.VPC0._STA")
      ∷ (acpi_path_cfg, "\\_SB.PCI0.LPC0.EC0.VPC0._CFG")
      ∷ (acpi_path_read_rapidcharge, "\\_SB.PCI0.LPC0.EC0.VPC0.GBMD")
      ∷ (acpi_path_write_rapidcharge, "\\_SB.PCI0.LPC0.EC0.VPC0.SBMC")
      ∷ [];
}

abbrev pub model_nrcn : ModelConfig
model_nrcn = record (zero_config 40 ec_register_offsets_v0) {
  check_embedded_controller_id = true;
  embedded_controller_id = 0x8227;
  memoryio_physical_ec_start = 0xc400;
  memoryio_size = 0x300;
  has_minifancurve = true;
  has_custom_powermode = true;
  has_extreme_powermode = true;
  access_method_powermode = wmi;
  access_method_keyboard = wmi;
  access_method_fanspeed = wmi3;
  access_method_temperature = wmi3;
  access_method_fancurve = wmi3;
  access_method_fanfullspeed = wmi;
  acpi_check_dev = false;
  ramio_physical_start = 0xfe0b0400;
  ramio_size = 0x600;
}

abbrev pub model_r3cn : ModelConfig
model_r3cn = record (zero_config 41 ec_register_offsets_loq_v1) {
  check_embedded_controller_id = true;
  embedded_controller_id = 0x5508;
  memoryio_physical_ec_start = 0xc400;
  memoryio_size = 0x300;
  has_minifancurve = true;
  has_custom_powermode = true;
  has_extreme_powermode = true;
  access_method_powermode = wmi;
  access_method_keyboard = wmi2;
  access_method_fanspeed = wmi3;
  access_method_temperature = wmi3;
  access_method_fancurve = ec3;
  access_method_fanfullspeed = wmi3;
  acpi_check_dev = false;
  ramio_physical_start = 0xfe0b0f00;
  ramio_size = 0x600;
  has_fancurve_defaults = true;
  acpi_paths =
      (acpi_path_sta, "\\_SB.PC00.LPCB.EC0.VPC0._STA")
      ∷ (acpi_path_cfg, "\\_SB.PC00.LPCB.EC0.VPC0._CFG")
      ∷ [];
}

abbrev pub model_rxcn : ModelConfig
model_rxcn = record (zero_config 42 ec_register_offsets_v0) {
  check_embedded_controller_id = false;
  embedded_controller_id = 0x5508;
  memoryio_physical_ec_start = 0xc400;
  memoryio_size = 0x300;
  has_minifancurve = true;
  has_custom_powermode = true;
  has_extreme_powermode = true;
  access_method_powermode = wmi;
  access_method_keyboard = wmi2;
  access_method_fanspeed = wmi3;
  access_method_temperature = wmi3;
  access_method_fancurve = wmi3;
  access_method_fanfullspeed = wmi3;
  acpi_check_dev = false;
  ramio_physical_start = 0xfe00d400;
  ramio_size = 0x600;
  has_fancurve_defaults = true;
}

abbrev pub model_s2cn : ModelConfig
model_s2cn = record (zero_config 43 ec_register_offsets_loq_v1) {
  check_embedded_controller_id = true;
  embedded_controller_id = 0x5508;
  memoryio_physical_ec_start = 0xc400;
  memoryio_size = 0x300;
  has_minifancurve = true;
  has_custom_powermode = true;
  has_extreme_powermode = true;
  access_method_powermode = wmi;
  access_method_keyboard = wmi2;
  access_method_fanspeed = wmi3;
  access_method_temperature = wmi3;
  access_method_fancurve = ec3;
  access_method_fanfullspeed = wmi3;
  acpi_check_dev = false;
  ramio_physical_start = 0xfe0b0f00;
  ramio_size = 0x600;
  has_fancurve_defaults = true;
  acpi_paths =
      (acpi_path_sta, "\\\\_SB.PC00.LPCB.EC0.VPC0._STA")
      ∷ (acpi_path_cfg, "\\\\_SB.PC00.LPCB.EC0.VPC0._CFG")
      ∷ [];
}

abbrev pub model_m3cn : ModelConfig
model_m3cn = record (zero_config 44 ec_register_offsets_v0) {
  check_embedded_controller_id = true;
  embedded_controller_id = 0x5507;
  memoryio_physical_ec_start = 0xc400;
  memoryio_size = 0x300;
  has_minifancurve = false;
  has_custom_powermode = true;
  access_method_powermode = wmi;
  access_method_keyboard = wmi;
  access_method_fanspeed = wmi3;
  access_method_temperature = wmi3;
  access_method_fancurve = wmi3;
  access_method_fanfullspeed = wmi;
  acpi_check_dev = true;
  ramio_physical_start = 0xfe0b0400;
  ramio_size = 0x600;
  has_extreme_powermode = true;
  acpi_paths =
      (acpi_path_sta, "\\_SB.PCI0.LPC0.EC0.VPC0._STA")
      ∷ (acpi_path_cfg, "\\_SB.PCI0.LPC0.EC0.VPC0._CFG")
      ∷ (acpi_path_read_rapidcharge, "\\_SB.PCI0.LPC0.EC0.VPC0.GBMD")
      ∷ (acpi_path_write_rapidcharge, "\\_SB.PCI0.LPC0.EC0.VPC0.SBMC")
      ∷ [];
}
