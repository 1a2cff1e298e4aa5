-- ===== src/Probe.antt =====
-- Adding the driver to a device and removing it: what is registered with the kernel on the way, and the
-- steps that take and give back each of these resources.
pub mod Leds
pub mod Add
pub mod Remove
pub mod Unwind
pub mod Stages
pub mod Release
pub mod Success
pub mod Owned
pub mod Cycle
pub mod Reload
use sc_control.Base.{
  ℕ, Bool, true, false, not, ◌||◌, ◌==◌, if◌then◌else◌, String, List, [], ◌∷◌, Option, none, some,
  ℤ,
}
use sc_control.Errno.{Result, ok, err, Errno, einval, enomem, enodev, eio}
use sc_control.Ec.Ident.{read_ec_id}
use sc_control.Model.Config.{ModelConfig, get_model_acpi_path, acpi_path_sta, acpi_path_cfg}
use sc_control.Firmware.State.{Firmware, State, M, pure, fail, ◌>>=◌}
use sc_control.Firmware.Acpi.{eval_int}
use sc_control.Capdata.{Capdata01, DiscreteFeature}
use sc_control.Capdata.Collect.{Block}

-- What is registered or mapped. A resource is held while the driver's pointer to it is set, or its
-- `initialized` flag.
pub data Resource : Type 0 where
  memory_map io_ports debugfs_dir sysfs_group hwmon_device profile_handler wmi_driver : Resource
  kbd_led ylogo_led ioport_led : Resource

abbrev pub index_of : Resource → ℕ
index_of memory_map = 0
index_of io_ports = 1
index_of debugfs_dir = 2
index_of sysfs_group = 3
index_of hwmon_device = 4
index_of profile_handler = 5
index_of wmi_driver = 6
index_of kbd_led = 7
index_of ylogo_led = 8
index_of ioport_led = 9

-- `hwmon_device_register_with_groups`: a device, NULL, or an error pointer.
pub data HwmonAnswer : Type 0 where
  device null_device : HwmonAnswer
  error_pointer : Errno → HwmonAnswer

-- What the kernel answers to the calls of one probe, none for success where there is an error code; its
-- version, and the module's parameters.
pub record Kernel : Type 0 where
  pub ioremap : Bool
  pub request_region : Bool
  pub device_add_group : Option Errno
  pub hwmon_device_register : HwmonAnswer
  pub platform_profile_register : Option Errno
  pub wmi_driver_register : Option Errno
  pub led_classdev_register : Resource → Option Errno
  pub instance_count : String → ℤ
  pub query_block : String → ℕ → Option Block
  pub since_6_14 : Bool
  pub enable_platformprofile : Bool
  pub force : Bool

-- The driver: the operations' state, `legion_shared` and `loaded`, the capability data, and the held
-- resources, the last taken first.
pub record Driver (F : Type 0) : Type 0 where
  pub state : State F
  pub shared : Bool
  pub loaded : Bool
  pub capdata : List Capdata01
  pub features : List DiscreteFeature
  pub held : List Resource

-- A step of the probe.
abbrev pub Step : Type 0 → Type 0
Step F = Driver F → Result (Unit {0}) × Driver F

abbrev pub take : {F : Type 0} → Resource → Driver F → Driver F
take r d = record d { held = r ∷ d.held }

-- The resources without one of them.
unfoldable pub without : Resource → List Resource → List Resource
without r [] = []
without r (x ∷ xs) = let rest = without r xs in if index_of r == index_of x then rest else x ∷ rest

abbrev pub release : {F : Type 0} → Resource → Driver F → Driver F
release r d = record d { held = without r d.held }

-- A registration: the resource is held if the kernel took it.
unfoldable pub register : {F : Type 0} → Resource → Option Errno → Step F
register r none d = (ok tt, take r d)
register r (some e) d = (err e, d)

-- An operation on the state as a step: its value is dropped.
unfoldable pub put_state :
    {F A : Type 0} → Driver F → Result A × State F → Result (Unit {0}) × Driver F
put_state d (ok _, s) = (ok tt, record d { state = s })
put_state d (err e, s) = (err e, record d { state = s })

-- `legion_shared_init`
unfoldable pub legion_shared_init : {F : Type 0} → Step F
legion_shared_init d = if d.shared then (err einval, record d { loaded = true }) else (
  ok tt,
  record d { shared = true; loaded = true; state = record d.state { fancurve_valid = false } },
)

-- `legion_shared_exit`
unfoldable pub legion_shared_exit : {F : Type 0} → Driver F → Driver F
legion_shared_exit d = record d { shared = false }

-- `ecram_memoryio_init`
unfoldable pub ecram_memoryio_init : {F : Type 0} → Kernel → Step F
ecram_memoryio_init k d = if k.ioremap then (ok tt, take memory_map d) else (err enomem, d)

-- `ecram_memoryio_exit`
unfoldable pub ecram_memoryio_exit : {F : Type 0} → Driver F → Driver F
ecram_memoryio_exit d = release memory_map d

-- `ecram_portio_init`
unfoldable pub ecram_portio_init : {F : Type 0} → Kernel → Step F
ecram_portio_init k d = if k.request_region then (ok tt, take io_ports d) else (err enodev, d)

-- `ecram_portio_exit`
unfoldable pub ecram_portio_exit : {F : Type 0} → Driver F → Driver F
ecram_portio_exit d = release io_ports d

-- `ecram_init` and `ecram_exit`
unfoldable pub ecram_init : {F : Type 0} → Kernel → Step F
unfolding ecram_portio_init
ecram_init k d = ecram_portio_init k d

unfoldable pub ecram_exit : {F : Type 0} → Driver F → Driver F
unfolding ecram_portio_exit
ecram_exit d = ecram_portio_exit d

-- `legion_debugfs_init` and `legion_debugfs_exit`
unfoldable pub legion_debugfs_init : {F : Type 0} → Driver F → Driver F
legion_debugfs_init d = take debugfs_dir d

unfoldable pub legion_debugfs_exit : {F : Type 0} → Driver F → Driver F
legion_debugfs_exit d = release debugfs_dir d

-- `legion_sysfs_init` and `legion_sysfs_exit`
unfoldable pub legion_sysfs_init : {F : Type 0} → Kernel → Step F
unfolding register
legion_sysfs_init k d = register sysfs_group k.device_add_group d

unfoldable pub legion_sysfs_exit : {F : Type 0} → Driver F → Driver F
legion_sysfs_exit d = release sysfs_group d

-- `legion_hwmon_init`: for NULL the error code is 0, and nothing is held.
unfoldable pub legion_hwmon_init : {F : Type 0} → Kernel → Step F
legion_hwmon_init k d = elim k.hwmon_device_register [
  | device ↦ (ok tt, take hwmon_device d)
  | null_device ↦ (ok tt, d)
  | error_pointer e ↦ (err e, d)
]

-- `legion_hwmon_exit`
unfoldable pub legion_hwmon_exit : {F : Type 0} → Driver F → Driver F
legion_hwmon_exit d = release hwmon_device d

-- `legion_wmi_init` and `legion_wmi_exit`
unfoldable pub legion_wmi_init : {F : Type 0} → Kernel → Step F
unfolding register
legion_wmi_init k d = register wmi_driver k.wmi_driver_register d

unfoldable pub legion_wmi_exit : {F : Type 0} → Driver F → Driver F
legion_wmi_exit d = release wmi_driver d

-- Does the driver register and remove the profile itself? Since kernel 6.14 the kernel releases it with
-- the device.
abbrev pub own_profile : Kernel → Bool
own_profile k = if k.enable_platformprofile then not k.since_6_14 else false

-- `legion_platform_profile_init`
unfoldable pub legion_platform_profile_init : {F : Type 0} → Kernel → Step F
legion_platform_profile_init k d =
    if k.enable_platformprofile
    then elim k.platform_profile_register [
      | none ↦ (ok tt, if k.since_6_14 then d else take profile_handler d)
      | some e ↦ (err e, d)
    ]
    else (ok tt, d)

-- `legion_platform_profile_exit`
unfoldable pub legion_platform_profile_exit : {F : Type 0} → Kernel → Driver F → Driver F
legion_platform_profile_exit k d =
    if k.enable_platformprofile then (if k.since_6_14 then d else release profile_handler d) else d

module _ {F : Type 0} (fw : Firmware F) (k : Kernel) (conf : ModelConfig) where
  -- The evaluation of one of the model's paths, which is set for the two that are used here.
  eval_path : ℕ → M F ℕ
  eval_path id = elim (get_model_acpi_path conf id) [ none ↦ fail einval | some p ↦ eval_int fw p ]

  unfoldable pub eval_sta_cfg : M F ℕ
  unfolding eval_path
  eval_sta_cfg = eval_path acpi_path_sta >>= λ _. eval_path acpi_path_cfg

  -- `acpi_init`
  unfoldable pub acpi_init : Step F
  unfolding eval_sta_cfg put_state
  acpi_init d =
      if k.force || not conf.acpi_check_dev then (ok tt, d) else put_state d (eval_sta_cfg d.state)

  -- The test of the chip's id.
  unfoldable pub check_chip : Step F
  check_chip d =
      if (k.force || not conf.check_embedded_controller_id)
        || (read_ec_id d.state.ram conf == conf.embedded_controller_id)
      then (ok tt, d)
      else (err eio, d)
