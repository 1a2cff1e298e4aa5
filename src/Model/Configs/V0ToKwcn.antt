-- ===== src/Model/Configs/V0ToKwcn.antt =====
-- Model configurations of driver/legion-laptop.c, from `model_v0` to `model_kwcn`.
use sc_control.Base.{[], ◌∷◌, false, true}
use sc_control.Model.Registers.{ec_register_offsets_ideapad_v1, ec_register_offsets_v0}
use sc_control.Model.Config.{
  ModelConfig, zero_config, acpi, ec, ec2, no_access, wmi, wmi3, acpi_path_cfg,
  acpi_path_read_rapidcharge, acpi_path_sta, acpi_path_write_rapidcharge,
}

abbrev pub model_v0 : ModelConfig
model_v0 = record (zero_config 0 ec_register_offsets_v0) {
  check_embedded_controller_id = true;
  embedded_controller_id = 0x8227;
  memoryio_physical_ec_start = 0xc400;
  memoryio_size = 0x300;
  has_minifancurve = true;
  has_custom_powermode = true;
  access_method_powermode = wmi;
  access_method_keyboard = wmi;
  access_method_fanspeed = ec;
  access_method_temperature = ec;
  access_method_fancurve = ec;
  access_method_fanfullspeed = wmi;
  acpi_check_dev = true;
  ramio_physical_start = 0xfe00d400;
  ramio_size = 0x600;
  acpi_paths =
      (acpi_path_sta, "\\_SB.PCI0.LPC0.EC0.VPC0._STA")
      ∷ (acpi_path_cfg, "\\_SB.PCI0.LPC0.EC0.VPC0._CFG")
      ∷ (acpi_path_read_rapidcharge, "\\_SB.PCI0.LPC0.EC0.VPC0.GBMD")
      ∷ (acpi_path_write_rapidcharge, "\\_SB.PCI0.LPC0.EC0.VPC0.SBMC")
      ∷ [];
}

abbrev pub model_efcn : ModelConfig
model_efcn = record (zero_config 1 ec_register_offsets_v0) {
  check_embedded_controller_id = true;
  embedded_controller_id = 0x8227;
  memoryio_physical_ec_start = 0xc400;
  memoryio_size = 0x300;
  has_minifancurve = true;
  has_custom_powermode = true;
  access_method_powermode = wmi;
  access_method_keyboard = no_access;
  access_method_fanspeed = ec;
  access_method_temperature = ec;
  access_method_fancurve = ec;
  access_method_fanfullspeed = wmi;
  acpi_check_dev = true;
  ramio_physical_start = 0xfe00d400;
  ramio_size = 0x600;
  ec_ylogo_register = 0xc36f;
  skip_ioport_light = true;
  acpi_paths =
      (acpi_path_sta, "\\_SB.PCI0.LPCB.EC0.VPC0._STA")
      ∷ (acpi_path_cfg, "\\_SB.PCI0.LPCB.EC0.VPC0._CFG")
      ∷ (acpi_path_read_rapidcharge, "\\_SB.PCI0.LPCB.EC0.VPC0.GBMD")
      ∷ (acpi_path_write_rapidcharge, "\\_SB.PCI0.LPCB.EC0.VPC0.SBMC")
      ∷ [];
}

abbrev pub model_j2cn : ModelConfig
model_j2cn = record (zero_config 2 ec_register_offsets_v0) {
  check_embedded_controller_id = true;
  embedded_controller_id = 0x8227;
  memoryio_physical_ec_start = 0xc400;
  memoryio_size = 0x300;
  has_minifancurve = true;
  has_custom_powermode = true;
  access_method_powermode = wmi;
  access_method_keyboard = wmi;
  access_method_fanspeed = ec;
  access_method_temperature = ec;
  access_method_fancurve = ec;
  access_method_fanfullspeed = wmi;
  acpi_check_dev = true;
  ramio_physical_start = 0xfe00d400;
  ramio_size = 0x600;
}

abbrev pub model_9vcn : ModelConfig
model_9vcn = record (zero_config 3 ec_register_offsets_ideapad_v1) {
  check_embedded_controller_id = true;
  embedded_controller_id = 0x8226;
  memoryio_physical_ec_start = 0xc400;
  memoryio_size = 0x300;
  has_minifancurve = true;
  has_custom_powermode = true;
  access_method_powermode = wmi;
  access_method_keyboard = wmi;
  access_method_fanspeed = wmi;
  access_method_temperature = wmi;
  access_method_fancurve = ec2;
  access_method_fanfullspeed = wmi;
  acpi_check_dev = false;
  ramio_physical_start = 0xfe00d400;
  ramio_size = 0x600;
}

abbrev pub model_v2022 : ModelConfig
model_v2022 = record (zero_config 4 ec_register_offsets_v0) {
  check_embedded_controller_id = true;
  embedded_controller_id = 0x8227;
  memoryio_physical_ec_start = 0xc400;
  memoryio_size = 0x300;
  has_minifancurve = true;
  has_custom_powermode = true;
  access_method_powermode = wmi;
  access_method_keyboard = wmi;
  access_method_fanspeed = ec;
  access_method_temperature = ec;
  access_method_fancurve = ec;
  access_method_fanfullspeed = wmi;
  acpi_check_dev = true;
  ramio_physical_start = 0xfe00d400;
  ramio_size = 0x600;
}

abbrev pub model_4gcn : ModelConfig
model_4gcn = record (zero_config 5 ec_register_offsets_v0) {
  check_embedded_controller_id = true;
  embedded_controller_id = 0x8226;
  memoryio_physical_ec_start = 0xc400;
  memoryio_size = 0x300;
  has_minifancurve = true;
  has_custom_powermode = true;
  access_method_powermode = wmi;
  access_method_keyboard = wmi;
  access_method_fanspeed = ec;
  access_method_temperature = ec;
  access_method_fancurve = ec;
  access_method_fanfullspeed = wmi;
  acpi_check_dev = true;
  ramio_physical_start = 0xfe00d400;
  ramio_size = 0x600;
}

abbrev pub model_bvcn : ModelConfig
model_bvcn = record (zero_config 6 ec_register_offsets_v0) {
  check_embedded_controller_id = false;
  embedded_controller_id = 0x8226;
  memoryio_physical_ec_start = 0xc400;
  memoryio_size = 0x300;
  has_minifancurve = true;
  has_custom_powermode = true;
  access_method_powermode = wmi;
  access_method_keyboard = wmi;
  access_method_fanspeed = wmi;
  access_method_temperature = wmi;
  access_method_fancurve = no_access;
  access_method_fanfullspeed = wmi;
  acpi_check_dev = false;
  ramio_physical_start = 0xfc7e0800;
  ramio_size = 0x600;
}

abbrev pub model_bhcn : ModelConfig
model_bhcn = record (zero_config 7 ec_register_offsets_v0) {
  check_embedded_controller_id = true;
  embedded_controller_id = 0x8226;
  memoryio_physical_ec_start = 0xc400;
  memoryio_size = 0x300;
  has_minifancurve = true;
  has_custom_powermode = false;
  access_method_powermode = wmi;
  access_method_keyboard = acpi;
  access_method_fanspeed = wmi;
  access_method_temperature = acpi;
  access_method_fancurve = ec;
  access_method_fanfullspeed = wmi;
  acpi_check_dev = true;
  ramio_physical_start = 0xff00d400;
  ramio_size = 0x600;
}

abbrev pub model_kwcn : ModelConfig
model_kwcn = record (zero_config 8 ec_register_offsets_v0) {
  check_embedded_controller_id = true;
  embedded_controller_id = 0x5507;
  memoryio_physical_ec_start = 0xc400;
  memoryio_size = 0x300;
  has_minifancurve = false;
  has_custom_powermode = true;
  access_method_powermode = wmi;
  access_method_keyboard = wmi;
  access_method_fanspeed = wmi3;
  access_method_temperature = wmi3;
  access_method_fancurve = wmi3;
  access_method_fanfullspeed = wmi;
  acpi_check_dev = true;
  ramio_physical_start = 0xfe0b0400;
  ramio_size = 0x600;
  has_fan_unlock = true;
}
