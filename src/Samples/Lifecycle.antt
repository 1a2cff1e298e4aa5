-- ===== src/Samples/Lifecycle.antt =====
-- The theorems on adding and removing the driver, applied to a kernel that takes every registration and
-- to one that refuses the WMI driver.
use sc_control.Base.{◌≡◌, refl, true, false, [], ◌∷◌, ℕ, pos, none, some, List}
use sc_control.Errno.{ok, err, ebusy, enodev, einval}
use sc_control.Model.Configs.{model_v0}
use sc_control.Samples.{sample_firmware, sample_state}
use sc_control.Probe.{
  Kernel, Driver, device, legion_shared_init, acpi_init, ecram_memoryio_init, ecram_init,
  check_chip, legion_sysfs_init, legion_hwmon_init, legion_platform_profile_init, legion_wmi_init,
}
use sc_control.Probe.Add.{legion_add, proceed, unwind}
use sc_control.Probe.Remove.{legion_remove}
use sc_control.Probe.Release.{failed_add_releases}
use sc_control.Probe.Cycle.{add_remove, after_probes, refused_add_blocks}
use sc_control.Probe.Reload.{Cooperates, remove_add_succeeds}

abbrev willing : Kernel
willing = record {
  ioremap = true;
  request_region = true;
  device_add_group = none;
  hwmon_device_register = device;
  platform_profile_register = none;
  wmi_driver_register = none;
  led_classdev_register = λ r. none;
  instance_count = λ g. pos 0;
  query_block = λ g i. none;
  since_6_14 = false;
  enable_platformprofile = true;
  force = true;
}

abbrev refusing : Kernel
refusing = record willing { wmi_driver_register = some ebusy }

abbrev fresh : Driver (List ℕ)
fresh = record {
  state = sample_state;
  shared = false;
  loaded = false;
  capdata = [];
  features = [];
  held = [];
}

failed_add_releases_example :
    let t = (legion_add sample_firmware false refusing none false fresh).1 in
    (t.held ≡ []) × (t.shared ≡ false)
unfolding legion_add proceed legion_shared_init unwind acpi_init ecram_memoryio_init ecram_init
    check_chip legion_sysfs_init legion_hwmon_init legion_platform_profile_init legion_wmi_init
failed_add_releases_example =
    failed_add_releases sample_firmware false refusing none false fresh ebusy refl refl refl refl

add_remove_example :
    let t =
      legion_remove sample_firmware false willing model_v0
        (legion_add sample_firmware false willing none false fresh).1 in
    (t.held ≡ []) × (t.shared ≡ false) × (t.loaded ≡ false)
unfolding legion_add proceed legion_shared_init unwind acpi_init ecram_memoryio_init ecram_init
    check_chip legion_sysfs_init legion_hwmon_init legion_platform_profile_init legion_wmi_init
add_remove_example = add_remove sample_firmware false willing none false fresh refl refl refl refl

refused_add_blocks_example :
    let unforced = record willing { force = false } in
    let (r, refused) = legion_add sample_firmware false unforced none false fresh in
    let t =
      after_probes sample_firmware false
        ((unforced, (none, true)) ∷ (willing, (none, false)) ∷ [])
        refused in
    (r ≡ err enodev)
    × (t.shared ≡ true)
    × ((legion_add sample_firmware false willing none false t).0 ≡ err einval)
refused_add_blocks_example =
    let unforced = record willing { force = false } in
    refused_add_blocks sample_firmware false unforced willing none none false false
      ((unforced, (none, true)) ∷ (willing, (none, false)) ∷ []) fresh refl refl

willing-Cooperates : Cooperates willing
willing-Cooperates = record {
  maps = refl;
  reserves = refl;
  adds_group = refl;
  takes_hwmon = refl;
  takes_profile = refl;
  takes_wmi = refl;
}

remove_add_succeeds_example :
    (legion_add sample_firmware false willing none false
      (legion_remove sample_firmware false willing model_v0 fresh)).0
    ≡ ok tt
remove_add_succeeds_example =
    remove_add_succeeds sample_firmware false willing willing model_v0 none false fresh refl
      willing-Cooperates refl refl
