-- ===== src/Model/Config.antt =====
-- `struct model_config` of driver/legion-laptop.c: how one laptop model is driven, the ACPI paths,
-- and what a designated initialiser leaves at zero.
use sc_control.Base.{
  ℕ, String, Bool, false, Option, none, some, List, [], ◌∷◌, ltb, ◌==◌, if◌then◌else◌,
}
use sc_control.Model.Registers.{EcRegisterOffsets}

pub data AccessMethod : Type 0 where
  no_access ec acpi wmi wmi2 wmi3 wmi3_clamped ec2 ec3 ec4 : AccessMethod

-- `enum acpi_paths_inventory_ids`; the last is the number of paths.
abbrev pub acpi_path_sta : ℕ
acpi_path_sta = 0

abbrev pub acpi_path_cfg : ℕ
acpi_path_cfg = 1

abbrev pub acpi_path_read_rapidcharge : ℕ
acpi_path_read_rapidcharge = 2

abbrev pub acpi_path_write_rapidcharge : ℕ
acpi_path_write_rapidcharge = 3

abbrev pub acpi_path_read_powermode : ℕ
acpi_path_read_powermode = 4

abbrev pub acpi_path_read_fanspeed1 : ℕ
acpi_path_read_fanspeed1 = 5

abbrev pub acpi_path_read_fanspeed2 : ℕ
acpi_path_read_fanspeed2 = 6

abbrev pub acpi_path_read_cpu_temp : ℕ
acpi_path_read_cpu_temp = 7

abbrev pub acpi_path_read_gpu_temp : ℕ
acpi_path_read_gpu_temp = 8

abbrev pub acpi_path_read_fnlock : ℕ
acpi_path_read_fnlock = 9

abbrev pub acpi_path_write_fnlock : ℕ
acpi_path_write_fnlock = 10

abbrev pub acpi_path_max : ℕ
acpi_path_max = 11

-- `address` stands for the address of the configuration, which the source compares to tell models
-- apart; `acpi_paths` lists the paths that an initialiser names.
pub record ModelConfig : Type 0 where
  pub address : ℕ
  pub registers : EcRegisterOffsets
  pub check_embedded_controller_id : Bool
  pub embedded_controller_id : ℕ
  pub memoryio_physical_ec_start : ℕ
  pub memoryio_size : ℕ
  pub has_minifancurve : Bool
  pub has_custom_powermode : Bool
  pub has_extreme_powermode : Bool
  pub access_method_powermode : AccessMethod
  pub access_method_keyboard : AccessMethod
  pub access_method_temperature : AccessMethod
  pub access_method_fanspeed : AccessMethod
  pub access_method_fancurve : AccessMethod
  pub access_method_fanfullspeed : AccessMethod
  pub access_method_powerlimits : AccessMethod
  pub three_state_keyboard : Bool
  pub skip_ic_temp : Bool
  pub skip_oc_controls : Bool
  pub acpi_fanspeed_is_rpm : Bool
  pub fan_target_is_duty : Bool
  pub has_four_fans : Bool
  pub has_single_fan : Bool
  pub fan_max_rpm : ℕ
  pub fanfullspeed_requires_custom_powermode : Bool
  pub skip_ylogo_light : Bool
  pub skip_ioport_light : Bool
  pub ec_ylogo_register : ℕ
  pub acpi_check_dev : Bool
  pub ramio_physical_start : ℕ
  pub ramio_size : ℕ
  pub acpi_paths : List (ℕ × String)
  pub has_fancurve_defaults : Bool
  pub wmi_fancurve_speed_only : Bool
  pub require_unlocked_fan_controller : Bool
  pub has_pl_coupling : Bool
  pub has_fan_unlock : Bool
  pub has_fn_lock : Bool
  pub has_flip_to_start : Bool

-- What C's initialisation leaves in the fields that an initialiser does not name.
abbrev pub zero_config : ℕ → EcRegisterOffsets → ModelConfig
zero_config address registers = record {
  address = address;
  registers = registers;
  check_embedded_controller_id = false;
  embedded_controller_id = 0;
  memoryio_physical_ec_start = 0;
  memoryio_size = 0;
  has_minifancurve = false;
  has_custom_powermode = false;
  has_extreme_powermode = false;
  access_method_powermode = no_access;
  access_method_keyboard = no_access;
  access_method_temperature = no_access;
  access_method_fanspeed = no_access;
  access_method_fancurve = no_access;
  access_method_fanfullspeed = no_access;
  access_method_powerlimits = no_access;
  three_state_keyboard = false;
  skip_ic_temp = false;
  skip_oc_controls = false;
  acpi_fanspeed_is_rpm = false;
  fan_target_is_duty = false;
  has_four_fans = false;
  has_single_fan = false;
  fan_max_rpm = 0;
  fanfullspeed_requires_custom_powermode = false;
  skip_ylogo_light = false;
  skip_ioport_light = false;
  ec_ylogo_register = 0;
  acpi_check_dev = false;
  ramio_physical_start = 0;
  ramio_size = 0;
  acpi_paths = [];
  has_fancurve_defaults = false;
  wmi_fancurve_speed_only = false;
  require_unlocked_fan_controller = false;
  has_pl_coupling = false;
  has_fan_unlock = false;
  has_fn_lock = false;
  has_flip_to_start = false;
}

abbrev default_acpi_paths : List (ℕ × String)
default_acpi_paths =
    (acpi_path_sta, "_STA")
    ∷ (acpi_path_cfg, "_CFG")
    ∷ (acpi_path_read_rapidcharge, "VPC0.GBMD")
    ∷ (acpi_path_write_rapidcharge, "VPC0.SBMC")
    ∷ (acpi_path_read_powermode, "VPC0.BTSM")
    ∷ (acpi_path_read_fanspeed1, "FANS")
    ∷ (acpi_path_read_fanspeed2, "FA2S")
    ∷ (acpi_path_read_cpu_temp, "CPUT")
    ∷ (acpi_path_read_gpu_temp, "GPUT")
    ∷ []

-- The entry of a designated initialiser, NULL where it has none.
path_entry : List (ℕ × String) → ℕ → Option String
path_entry [] id = none
path_entry ((k, path) ∷ rest) id = if k == id then some path else path_entry rest id

-- The model's own path, or else the default; NULL for a path that neither has.
unfoldable pub get_model_acpi_path : ModelConfig → ℕ → Option String
unfolding path_entry
get_model_acpi_path model id =
    if ltb id acpi_path_max
    then elim (path_entry model.acpi_paths id) [
      | some path ↦ some path
      | none ↦ path_entry default_acpi_paths id
    ]
    else none
