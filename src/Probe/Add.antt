-- ===== src/Probe/Add.antt =====
-- `legion_add`: the steps of the probe, each given back when a later one fails.
use sc_control.Base.{Bool, not, ◌||◌, if◌then◌else◌, String, Option, none, some, ℤ}
use sc_control.Errno.{Result, ok, err, enodev}
use sc_control.Model.Config.{ModelConfig}
use sc_control.Model.Configs.{model_v0}
use sc_control.Model.Allowlist.{DmiEntry}
use sc_control.Firmware.State.{Firmware, State}
use sc_control.PowerMode.Access.{read_powermode}
use sc_control.Capdata.Collect.{collect_capdata, collect_features}
use sc_control.Probe.{
  Kernel, Driver, Step, legion_shared_init, legion_shared_exit, ecram_memoryio_init,
  ecram_memoryio_exit, ecram_init, ecram_exit, legion_debugfs_init, legion_debugfs_exit,
  legion_sysfs_init, legion_sysfs_exit, legion_hwmon_init, legion_hwmon_exit, legion_wmi_init,
  legion_platform_profile_init, legion_platform_profile_exit, acpi_init, check_chip,
}
use sc_control.Probe.Leds.{init_lights}

-- The way back of a failed step: what was done before it is undone.
unfoldable pub unwind :
    {F : Type 0}
    → (Driver F → Driver F)
    → Result (Unit {0}) × Driver F
    → Result (Unit {0}) × Driver F
unwind undo (ok _, d) = (ok tt, d)
unwind undo (err e, d) = (err e, undo d)

-- The rest of the probe after a step, if the step succeeded.
unfoldable pub proceed :
    {F : Type 0} → Step F → Result (Unit {0}) × Driver F → Result (Unit {0}) × Driver F
proceed rest (ok _, d) = rest d
proceed rest (err e, d) = (err e, d)

-- A step, and the rest with the way back.
abbrev pub protect : {F : Type 0} → Step F → (Driver F → Driver F) → Step F → Step F
protect init undo rest d = proceed (λ t. unwind undo (rest t)) (init d)

abbrev capdata_guid : String
capdata_guid = "7A8F5407-CB67-4D6E-B547-39B3BE018154"

abbrev discrete_guid : String
discrete_guid = "91433B17-B7B7-4640-BB40-34C67349FBEC"

-- The mode in the driver's field: as it was if the read failed.
unfoldable pub with_powermode : {F : Type 0} → Driver F → Result ℤ × State F → Driver F
with_powermode d (ok m, s) = record d { state = record s { current_powermode = m } }
with_powermode d (err _, s) = record d { state = s }

-- The configuration: the matching entry's, or else the first entry's of the allowlist.
abbrev pub chosen_model : Option DmiEntry → ModelConfig
chosen_model none = model_v0
chosen_model (some e) = e.driver_data

module _ {F : Type 0} (fw : Firmware F) (ro : Bool) (k : Kernel) (conf : ModelConfig) where
  -- The coupling and the capability data.
  unfoldable pub collected : Driver F → Driver F
  collected d = record d {
    state = record d.state { cpu_pl_coupling = conf.has_pl_coupling };
    capdata =
        collect_capdata (fw.has_guid capdata_guid) (k.instance_count capdata_guid)
          (k.query_block capdata_guid) d.capdata;
    features =
        collect_features (fw.has_guid discrete_guid) (k.instance_count discrete_guid)
          (k.query_block discrete_guid) d.features;
  }

  -- And the power mode.
  unfoldable pub collect_data : Driver F → Driver F
  unfolding with_powermode collected
  collect_data d = let e = collected d in with_powermode e (read_powermode fw ro conf e.state)

  -- The registration of the WMI driver and the lights.
  unfoldable pub add_wmi : Step F
  add_wmi d = proceed (λ t. (ok tt, init_lights fw k conf t)) (legion_wmi_init k d)

  unfoldable pub add_interfaces : Step F
  unfolding add_wmi
  add_interfaces d = unwind legion_debugfs_exit (
      protect (legion_sysfs_init k) legion_sysfs_exit
        (protect (legion_hwmon_init k) legion_hwmon_exit
          (protect (legion_platform_profile_init k) (legion_platform_profile_exit k) add_wmi))
        (legion_debugfs_init d))

  -- The access to the controller's memory, the test of the chip, and the interfaces.
  unfoldable pub add_hardware : Step F
  unfolding add_interfaces
  add_hardware d =
      proceed
        (protect (ecram_memoryio_init k) ecram_memoryio_exit (
          protect (ecram_init k) ecram_exit (λ t. proceed add_interfaces (check_chip fw k conf t))))
        (acpi_init fw k conf d)

-- Is the device to be driven?
abbrev pub do_load : Kernel → Option DmiEntry → Bool → Bool
do_load k none denied = k.force
do_load k (some _) denied = not denied || k.force

-- `legion_add`, from the allowlist's matching entry and the denylist's answer. A device that is not to
-- be driven is refused after `legion_shared_init`, which is not undone then.
unfoldable pub legion_add :
    {F : Type 0} → Firmware F → Bool → Kernel → Option DmiEntry → Bool → Step F
unfolding add_hardware collect_data
legion_add fw ro k dmi denied d =
    let conf = chosen_model dmi in
    proceed
      (λ t.
        if do_load k dmi denied
        then unwind legion_shared_exit (add_hardware fw ro k conf (collect_data fw ro k conf t))
        else (err enodev, t))
      (legion_shared_init d)
