-- ===== src/Model/Configs/M3cn8227ToUfcn.antt =====
-- Model configurations of driver/legion-laptop.c, from `model_m3cn_8227` to `model_ufcn`.
use sc_control.Base.{[], ◌∷◌, false, true}
use sc_control.Model.Registers.{
  ec_register_offsets_loq_v0, ec_register_offsets_loq_v1, ec_register_offsets_v0,
}
use sc_control.Model.Config.{
  ModelConfig, zero_config, ec3, wmi, wmi2, wmi3, wmi3_clamped, acpi_path_cfg,
  acpi_path_read_fnlock, acpi_path_read_rapidcharge, acpi_path_sta, acpi_path_write_fnlock,
  acpi_path_write_rapidcharge,
}

abbrev pub model_m3cn_8227 : ModelConfig
model_m3cn_8227 = record (zero_config 45 ec_register_offsets_v0) {
  check_embedded_controller_id = true;
  embedded_controller_id = 0x8227;
  memoryio_physical_ec_start = 0xc400;
  memoryio_size = 0x300;
  has_minifancurve = false;
  has_custom_powermode = true;
  access_method_powermode = wmi;
  access_method_keyboard = wmi;
  access_method_fanspeed = wmi3;
  access_method_temperature = wmi3;
  access_method_fancurve = wmi3;
  access_method_fanfullspeed = wmi;
  acpi_check_dev = true;
  ramio_physical_start = 0xfe0b0400;
  ramio_size = 0x600;
  has_extreme_powermode = true;
  acpi_paths =
      (acpi_path_sta, "\\_SB.PCI0.LPC0.EC0.VPC0._STA")
      ∷ (acpi_path_cfg, "\\_SB.PCI0.LPC0.EC0.VPC0._CFG")
      ∷ (acpi_path_read_rapidcharge, "\\_SB.PCI0.LPC0.EC0.VPC0.GBMD")
      ∷ (acpi_path_write_rapidcharge, "\\_SB.PCI0.LPC0.EC0.VPC0.SBMC")
      ∷ [];
}

abbrev pub model_q8cn : ModelConfig
model_q8cn = record (zero_config 46 ec_register_offsets_loq_v0) {
  check_embedded_controller_id = true;
  embedded_controller_id = 0x8227;
  memoryio_physical_ec_start = 0xc400;
  memoryio_size = 0x300;
  has_minifancurve = true;
  has_custom_powermode = true;
  has_extreme_powermode = true;
  access_method_powermode = wmi;
  access_method_keyboard = wmi2;
  access_method_fanspeed = wmi3;
  access_method_temperature = wmi3;
  access_method_fancurve = wmi3;
  access_method_fanfullspeed = wmi3;
  access_method_powerlimits = wmi3;
  acpi_check_dev = false;
  ramio_physical_start = 0xfe0b05c0;
  ramio_size = 0x600;
  has_fancurve_defaults = false;
  acpi_paths =
      (acpi_path_sta, "\\_SB.PC00.LPCB.EC0.VPC0._STA")
      ∷ (acpi_path_cfg, "\\_SB.PC00.LPCB.EC0.VPC0._CFG")
      ∷ [];
}

abbrev pub model_secn : ModelConfig
model_secn = record (zero_config 47 ec_register_offsets_loq_v1) {
  check_embedded_controller_id = true;
  embedded_controller_id = 0x5508;
  memoryio_physical_ec_start = 0xc400;
  memoryio_size = 0x300;
  has_minifancurve = true;
  has_custom_powermode = true;
  has_extreme_powermode = true;
  access_method_powermode = wmi;
  access_method_keyboard = wmi2;
  access_method_fanspeed = wmi3;
  access_method_temperature = wmi3;
  access_method_fancurve = ec3;
  access_method_fanfullspeed = wmi3;
  access_method_powerlimits = wmi3_clamped;
  acpi_check_dev = false;
  ramio_physical_start = 0xfe0b0f00;
  ramio_size = 0x600;
  has_fancurve_defaults = true;
  has_pl_coupling = true;
  has_fan_unlock = true;
  has_fn_lock = true;
  has_flip_to_start = true;
  has_single_fan = true;
  fan_max_rpm = 5400;
  fanfullspeed_requires_custom_powermode = true;
  acpi_paths =
      (acpi_path_sta, "\\_SB.PC00.LPCB.EC0.VPC0._STA")
      ∷ (acpi_path_cfg, "\\_SB.PC00.LPCB.EC0.VPC0._CFG")
      ∷ (acpi_path_read_rapidcharge, "\\_SB.PC00.LPCB.EC0.VPC0.GBMD")
      ∷ (acpi_path_write_rapidcharge, "\\_SB.PC00.LPCB.EC0.VPC0.SBMC")
      ∷ (acpi_path_read_fnlock, "\\_SB.PC00.LPCB.EC0.VPC0.HALS")
      ∷ (acpi_path_write_fnlock, "\\_SB.PC00.LPCB.EC0.VPC0.SALS")
      ∷ [];
}

abbrev pub model_ufcn : ModelConfig
model_ufcn = record (zero_config 48 ec_register_offsets_v0) {
  check_embedded_controller_id = true;
  embedded_controller_id = 0x5509;
  memoryio_physical_ec_start = 0xc400;
  memoryio_size = 0x300;
  has_minifancurve = true;
  has_custom_powermode = true;
  has_extreme_powermode = true;
  access_method_powermode = wmi;
  access_method_keyboard = wmi;
  access_method_fanspeed = wmi3;
  access_method_temperature = wmi3;
  access_method_fancurve = wmi3;
  access_method_fanfullspeed = wmi;
  acpi_check_dev = false;
  ramio_physical_start = 0xfe0b0400;
  ramio_size = 0x600;
  acpi_paths =
      (acpi_path_read_rapidcharge, "\\_SB.PC00.LPCB.EC0.VPC0.GBMD")
      ∷ (acpi_path_write_rapidcharge, "\\_SB.PC00.LPCB.EC0.VPC0.SBMC")
      ∷ [];
}
