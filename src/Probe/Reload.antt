-- ===== src/Probe/Reload.antt =====
-- A driver that was removed can be added again.
use sc_control.Base.{
  ◌≡◌, refl, ◌∙◌, ap, Bool, true, false, not, ◌||◌, ◌==◌, if◌then◌else◌, Option, none, some,
}
use sc_control.Errno.{Errno, Result, ok, err, enodev, enomem, eio}
use sc_control.Model.Config.{ModelConfig}
use sc_control.Model.Allowlist.{DmiEntry}
use sc_control.Ec.Ident.{read_ec_id}
use sc_control.Firmware.State.{Firmware}
use sc_control.Probe.{
  sysfs_group, hwmon_device, profile_handler, wmi_driver, memory_map, io_ports, HwmonAnswer,
  null_device, error_pointer, Kernel, Driver, Step, device, take, register, legion_shared_exit,
  ecram_memoryio_init, ecram_memoryio_exit, ecram_portio_init, ecram_init, ecram_exit,
  legion_debugfs_init, legion_debugfs_exit, legion_sysfs_init, legion_sysfs_exit, legion_hwmon_init,
  legion_hwmon_exit, legion_wmi_init, legion_platform_profile_init, legion_platform_profile_exit,
  put_state, acpi_init, eval_sta_cfg, check_chip,
}
use sc_control.Probe.Leds.{init_lights}
use sc_control.Probe.Add.{
  unwind, proceed, protect, chosen_model, collect_data, add_wmi, add_interfaces, add_hardware,
  do_load, legion_add,
}
use sc_control.Probe.Release.{started, loaded_run}
use sc_control.Probe.Remove.{legion_remove}

-- A kernel that takes every registration.
pub record Cooperates (k : Kernel) : Type 0 where
  pub maps : k.ioremap ≡ true
  pub reserves : k.request_region ≡ true
  pub adds_group : k.device_add_group ≡ none
  pub takes_hwmon : k.hwmon_device_register ≡ device
  pub takes_profile : k.platform_profile_register ≡ none
  pub takes_wmi : k.wmi_driver_register ≡ none

record Succeeds {F : Type 0} (step : Step F) : Type 0 where
  success : (d : Driver F) → (step d).0 ≡ ok tt

module _ {F : Type 0} where
  proceed-ok :
      (rest : Step F) (p : Result (Unit {0}) × Driver F)
      → Succeeds rest
      → p.0 ≡ ok tt
      → (proceed rest p).0 ≡ ok tt
  unfolding proceed
  proceed-ok rest (ok _, d) r h = r.success d
  proceed-ok rest (err e, d) r h = cc

  unwind-ok :
      (undo : Driver F → Driver F) (p : Result (Unit {0}) × Driver F)
      → p.0 ≡ ok tt
      → (unwind undo p).0 ≡ ok tt
  unfolding unwind
  unwind-ok undo (ok _, d) h = refl
  unwind-ok undo (err e, d) h = h

  when_true :
      (b : Bool) (t : Driver F) (p : Result (Unit {0}) × Driver F)
      → b ≡ true
      → (if b then (ok tt, t) else p).0 ≡ ok tt
  when_true b t p h = ap (λ c. (if c then (ok tt, t) else p).0) h

  protect-Succeeds :
      (init rest : Step F) (undo : Driver F → Driver F)
      → Succeeds init
      → Succeeds rest
      → Succeeds (protect init undo rest)
  protect-Succeeds init rest undo i r = record {
    success = λ d.
        proceed-ok (λ t. unwind undo (rest t)) (init d)
          (record { success = λ t. unwind-ok undo (rest t) (r.success t) }) (i.success d);
  }

  registered :
      (enabled newer : Bool) (o : Option Errno) (d : Driver F)
      → o ≡ none
      → let p : Result (Unit {0}) × Driver F =
          if enabled
          then elim o as (λ _. Result (Unit {0}) × Driver F) [
            | none ↦ (ok tt, if newer then d else take profile_handler d)
            | some e ↦ (err e, d)
          ]
          else (ok tt, d) in
        p.0 ≡ ok tt
  registered true newer none d h = refl
  registered true newer (some e) d h = cc
  registered false newer o d h = refl

  hwmon_taken :
      (a : HwmonAnswer) (d : Driver F)
      → a ≡ device
      → let p : Result (Unit {0}) × Driver F = elim a as (λ _. Result (Unit {0}) × Driver F) [
        | device ↦ (ok tt, take hwmon_device d)
        | null_device ↦ (ok tt, d)
        | error_pointer e ↦ (err e, d)
      ] in
        p.0 ≡ ok tt
  hwmon_taken device d h = refl
  hwmon_taken null_device d h = refl
  hwmon_taken (error_pointer e) d h = cc

  module _ (fw : Firmware F) (ro : Bool) (k : Kernel) (conf : ModelConfig) (c : Cooperates k) where
    wmi-Succeeds : Succeeds (add_wmi fw ro k conf)
    unfolding add_wmi legion_wmi_init register
    wmi-Succeeds = record {
      success = λ d.
          proceed-ok (λ t. (ok tt, init_lights fw k conf t))
            (register wmi_driver k.wmi_driver_register d) (record { success = λ t. refl })
            (ap (λ o. (register wmi_driver o d).0) c.takes_wmi);
    }

    profile-Succeeds : Succeeds {F = F} (legion_platform_profile_init k)
    unfolding legion_platform_profile_init
    profile-Succeeds = record {
      success = λ d.
          registered k.enable_platformprofile k.since_6_14 k.platform_profile_register d
            c.takes_profile;
    }

    interfaces-Succeeds : Succeeds (add_interfaces fw ro k conf)
    unfolding add_interfaces legion_sysfs_init legion_hwmon_init register
    interfaces-Succeeds =
        let sysfs : Succeeds {F = F} (legion_sysfs_init k) = record {
          success = λ d. ap (λ o. (register sysfs_group o d).0) c.adds_group;
        } in
        let hwmon : Succeeds {F = F} (legion_hwmon_init k) = record {
          success = λ d. hwmon_taken k.hwmon_device_register d c.takes_hwmon;
        } in
        let inner = protect-Succeeds (legion_sysfs_init k) _ legion_sysfs_exit sysfs (
          protect-Succeeds (legion_hwmon_init k) _ legion_hwmon_exit hwmon (
            protect-Succeeds (legion_platform_profile_init k) (add_wmi fw ro k conf)
              (legion_platform_profile_exit k) profile-Succeeds wmi-Succeeds)) in
        record {
          success = λ d. unwind-ok legion_debugfs_exit _ (inner.success (legion_debugfs_init d));
        }

    -- The driver's own tests, of the ACPI device and of the chip, are passed over.
    hardware-Succeeds :
        (k.force || not conf.acpi_check_dev) ≡ true
        → (k.force || not conf.check_embedded_controller_id) ≡ true
        → Succeeds (add_hardware fw ro k conf)
    unfolding add_hardware acpi_init check_chip ecram_memoryio_init ecram_init ecram_portio_init
    hardware-Succeeds a b =
        let memory : Succeeds {F = F} (ecram_memoryio_init k) = record {
          success = λ d. when_true k.ioremap (take memory_map d) (err enomem, d) c.maps;
        } in
        let ports : Succeeds {F = F} (ecram_init k) = record {
          success = λ d. when_true k.request_region (take io_ports d) (err enodev, d) c.reserves;
        } in
        let skipped =
          λ (d : Driver F). read_ec_id d.state.ram conf == conf.embedded_controller_id in
        let chip : Succeeds (λ t. proceed (add_interfaces fw ro k conf) (check_chip fw k conf t)) =
          record {
            success = λ d.
                proceed-ok (add_interfaces fw ro k conf) (check_chip fw k conf d)
                  interfaces-Succeeds (when_true _ d (err eio, d) (ap (λ x. x || skipped d) b));
          } in
        let from_memory =
          protect-Succeeds (ecram_memoryio_init k) _ ecram_memoryio_exit memory
            (protect-Succeeds (ecram_init k) _ ecram_exit ports chip) in
        record {
          success = λ d. proceed-ok _ (acpi_init fw k conf d) from_memory (
              when_true (k.force || not conf.acpi_check_dev) d
                (put_state d (eval_sta_cfg fw k conf d.state)) a);
        }

  -- After the removal of a driver in any state, a probe of a device that is to be driven, by a kernel
  -- that takes every registration, succeeds, if the tests of the ACPI device and of the chip's id are
  -- off for the model or the driver is forced.
  pub remove_add_succeeds :
      (fw : Firmware F) (ro : Bool) (k k' : Kernel) (conf : ModelConfig) (dmi : Option DmiEntry)
      (denied : Bool) (d : Driver F)
      → do_load k' dmi denied ≡ true
      → Cooperates k'
      → (k'.force || not (chosen_model dmi).acpi_check_dev) ≡ true
      → (k'.force || not (chosen_model dmi).check_embedded_controller_id) ≡ true
      → (legion_add fw ro k' dmi denied (legion_remove fw ro k conf d)).0 ≡ ok tt
  unfolding legion_remove legion_shared_exit
  remove_add_succeeds fw ro k k' conf dmi denied d l c a b =
      let t = legion_remove fw ro k conf d in
      let model = chosen_model dmi in
      let prepared = collect_data fw ro k' model (started t) in
      ap (λ p. p.0) (loaded_run fw ro k' dmi denied t l refl)
      ∙ unwind-ok legion_shared_exit (add_hardware fw ro k' model prepared)
          ((hardware-Succeeds fw ro k' model c a b).success prepared)
