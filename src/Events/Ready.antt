-- ===== src/Events/Ready.antt =====
-- What a probe that succeeds leaves of `legion_shared` and `loaded`.
use sc_control.Base.{
  ℕ, ◌≡◌, ◌==◌, Bool, true, false, not, ◌||◌, if◌then◌else◌, Option, none, some, ℤ,
}
use sc_control.Errno.{Result, ok, err, Errno, eexist, enodev, enomem, eio}
use sc_control.Model.Config.{ModelConfig}
use sc_control.Firmware.State.{Firmware, State}
use sc_control.PowerMode.Access.{read_powermode}
use sc_control.Lights.{
  light_id_ylogo, light_id_ioport, legion_wmi_light_get, legion_ec_ylogo_get,
  legion_kbd_bl_brightness_get,
}
use sc_control.Probe.{
  Resource, memory_map, io_ports, debugfs_dir, sysfs_group, hwmon_device, profile_handler,
  wmi_driver, kbd_led, ylogo_led, ioport_led, HwmonAnswer, device, null_device, error_pointer,
  Kernel, Driver, Step, take, register, put_state, ecram_memoryio_init, ecram_memoryio_exit,
  ecram_portio_init, ecram_init, ecram_exit, legion_debugfs_init, legion_debugfs_exit,
  legion_sysfs_init, legion_sysfs_exit, legion_hwmon_init, legion_hwmon_exit, legion_wmi_init,
  legion_platform_profile_init, legion_platform_profile_exit, acpi_init, eval_sta_cfg, check_chip,
}
use sc_control.Probe.Leds.{
  is_no_access, holds, then_register, legion_kbd_bl_init, legion_ec_ylogo_init, legion_light_init,
  init_ylogo, init_lights,
}
use sc_control.Probe.Add.{
  unwind, proceed, protect, with_powermode, collected, collect_data, add_wmi, add_interfaces,
  add_hardware,
}

-- The driver is shared and loaded.
abbrev pub IsReady : {F : Type 0} → Driver F → Type 0
IsReady d = (d.shared ≡ true) × (d.loaded ≡ true)

-- After a success it is.
abbrev pub ReadyAfter : {F : Type 0} → Result (Unit {0}) × Driver F → Type 0
ReadyAfter (ok _, d) = IsReady d
ReadyAfter (err _, d) = Unit

pub record StaysReady {F : Type 0} (step : Step F) : Type 0 where
  pub stays : (d : Driver F) → IsReady d → ReadyAfter (step d)

module _ {F : Type 0} where
  pub unwind-ReadyAfter :
      (undo : Driver F → Driver F) (p : Result (Unit {0}) × Driver F)
      → ReadyAfter p
      → ReadyAfter (unwind undo p)
  unfolding unwind
  unwind-ReadyAfter undo (ok _, d) h = h
  unwind-ReadyAfter undo (err e, d) h = tt

  proceed-ReadyAfter :
      (rest : Step F) (p : Result (Unit {0}) × Driver F)
      → StaysReady rest
      → ReadyAfter p
      → ReadyAfter (proceed rest p)
  unfolding proceed
  proceed-ReadyAfter rest (ok _, d) r h = r.stays d h
  proceed-ReadyAfter rest (err e, d) r h = tt

  protect-StaysReady :
      (init rest : Step F) (undo : Driver F → Driver F)
      → StaysReady init
      → StaysReady rest
      → StaysReady (protect init undo rest)
  protect-StaysReady init rest undo i r = record {
    stays = λ d h.
        proceed-ReadyAfter (λ t. unwind undo (rest t)) (init d)
          (record { stays = λ t b. unwind-ReadyAfter undo (rest t) (r.stays t b) }) (i.stays d h);
  }

  register-IsReady :
      (r : Resource) (o : Option Errno) (d : Driver F) → IsReady d → IsReady (register r o d).1
  unfolding register
  register-IsReady r none d h = h
  register-IsReady r (some e) d h = h

  -- What is ready whatever the result is so after a success.
  success : (p : Result (Unit {0}) × Driver F) → IsReady p.1 → ReadyAfter p
  success (ok _, d) h = h
  success (err e, d) h = tt

  put_state-IsReady :
      {A : Type 0} (d : Driver F) (p : Result A × State F) → IsReady d → IsReady (put_state d p).1
  unfolding put_state
  put_state-IsReady d (ok a, s) h = h
  put_state-IsReady d (err e, s) h = h

  then_register-IsReady :
      (k : Kernel) (r : Resource) (p : Result (Unit {0}) × Driver F)
      → IsReady p.1
      → IsReady (then_register k r p).1
  unfolding then_register
  then_register-IsReady k r (ok _, d) h = register-IsReady r (k.led_classdev_register r) d h
  then_register-IsReady k r (err e, d) h = h

  one_of_steps :
      (b : Bool) (p q : Result (Unit {0}) × Driver F)
      → IsReady p.1
      → IsReady q.1
      → IsReady (if b then p else q).1
  one_of_steps true p q h g = h
  one_of_steps false p q h g = g

  one_of_drivers :
      (b : Bool) (d t : Driver F) → IsReady d → IsReady t → IsReady (if b then d else t)
  one_of_drivers true d t h g = h
  one_of_drivers false d t h g = g

  hwmon-IsReady :
      (a : HwmonAnswer) (d : Driver F)
      → IsReady d
      → let p : Result (Unit {0}) × Driver F = elim a as (λ _. Result (Unit {0}) × Driver F) [
        | device ↦ (ok tt, take hwmon_device d)
        | null_device ↦ (ok tt, d)
        | error_pointer e ↦ (err e, d)
      ] in
        IsReady p.1
  hwmon-IsReady device d h = h
  hwmon-IsReady null_device d h = h
  hwmon-IsReady (error_pointer c) d h = h

  profile-IsReady :
      (enabled newer : Bool) (o : Option Errno) (d : Driver F)
      → IsReady d
      → let p : Result (Unit {0}) × Driver F =
          if enabled
          then elim o as (λ _. Result (Unit {0}) × Driver F) [
            | none ↦ (ok tt, if newer then d else take profile_handler d)
            | some e ↦ (err e, d)
          ]
          else (ok tt, d) in
        IsReady p.1
  profile-IsReady true true none d h = h
  profile-IsReady true false none d h = h
  profile-IsReady true newer (some e) d h = h
  profile-IsReady false newer o d h = h

module _ {F : Type 0} (fw : Firmware F) (ro : Bool) (k : Kernel) (conf : ModelConfig) where
  kbd-IsReady : (d : Driver F) → IsReady d → IsReady (legion_kbd_bl_init fw k conf d).1
  unfolding legion_kbd_bl_init
  kbd-IsReady d h =
      let read = legion_kbd_bl_brightness_get fw d.state in
      let last = then_register k kbd_led (put_state d read) in
      let tried = if is_no_access conf.access_method_keyboard then (err enodev, d) else last in
      one_of_steps (holds kbd_led d.held) (err eexist, d) tried h
        (one_of_steps (is_no_access conf.access_method_keyboard) (err enodev, d) last h
          (then_register-IsReady k kbd_led (put_state d read) (put_state-IsReady d read h)))

  read-IsReady :
      (r : Resource) (d : Driver F) (read : Result ℕ × State F)
      → IsReady d
      → let p : Result (Unit {0}) × Driver F =
          if holds r d.held then (err eexist, d) else then_register k r (put_state d read) in
        IsReady p.1
  read-IsReady r d read h =
      one_of_steps (holds r d.held) (err eexist, d) (then_register k r (put_state d read)) h
        (then_register-IsReady k r (put_state d read) (put_state-IsReady d read h))

  light-IsReady :
      (r : Resource) (id lo hi : ℕ) (d : Driver F)
      → IsReady d
      → IsReady (legion_light_init fw k conf r id lo hi d).1
  unfolding legion_light_init
  light-IsReady r id lo hi d h = read-IsReady r d (legion_wmi_light_get fw id lo hi d.state) h

  ylogo-IsReady : (d : Driver F) → IsReady d → IsReady (init_ylogo fw k conf d)
  unfolding init_ylogo legion_ec_ylogo_init
  ylogo-IsReady d h =
      let a = (legion_ec_ylogo_init fw k conf d).1 in
      let b = (legion_light_init fw k conf ylogo_led light_id_ylogo 0 1 d).1 in
      one_of_drivers (not (conf.ec_ylogo_register == 0)) a
        (if not conf.skip_ylogo_light then b else d)
        (read-IsReady ylogo_led d (legion_ec_ylogo_get d.state.ram conf, d.state) h)
        (one_of_drivers (not conf.skip_ylogo_light) b d
          (light-IsReady ylogo_led light_id_ylogo 0 1 d h) h)

  lights-IsReady : (d : Driver F) → IsReady d → IsReady (init_lights fw k conf d)
  unfolding init_lights
  lights-IsReady d h =
      let e = init_ylogo fw k conf (legion_kbd_bl_init fw k conf d).1 in
      let own = ylogo-IsReady (legion_kbd_bl_init fw k conf d).1 (kbd-IsReady d h) in
      one_of_drivers (not conf.skip_ioport_light)
        (legion_light_init fw k conf ioport_led light_id_ioport 0 2 e).1 e
        (light-IsReady ioport_led light_id_ioport 0 2 e own) own

  wmi-StaysReady : StaysReady (add_wmi fw ro k conf)
  unfolding add_wmi legion_wmi_init
  wmi-StaysReady = record {
    stays = λ d h.
        proceed-ReadyAfter (λ t. (ok tt, init_lights fw k conf t))
          (register wmi_driver k.wmi_driver_register d) (record { stays = lights-IsReady })
          (success _ (register-IsReady wmi_driver k.wmi_driver_register d h));
  }

  interfaces-StaysReady : StaysReady (add_interfaces fw ro k conf)
  unfolding add_interfaces legion_debugfs_init legion_sysfs_init legion_hwmon_init
      legion_platform_profile_init
  interfaces-StaysReady =
      let profile : StaysReady (legion_platform_profile_init k) = record {
        stays = λ d h.
            success _ (
              profile-IsReady k.enable_platformprofile k.since_6_14 k.platform_profile_register d
                h);
      } in
      let hwmon : StaysReady (legion_hwmon_init k) = record {
        stays = λ d h. success _ (hwmon-IsReady k.hwmon_device_register d h);
      } in
      let sysfs : StaysReady (legion_sysfs_init k) = record {
        stays = λ d h. success _ (register-IsReady sysfs_group k.device_add_group d h);
      } in
      let from_profile =
        protect-StaysReady (legion_platform_profile_init k) (add_wmi fw ro k conf)
          (legion_platform_profile_exit k) profile wmi-StaysReady in
      let from_hwmon =
        protect-StaysReady (legion_hwmon_init k) _ legion_hwmon_exit hwmon from_profile in
      let from_sysfs =
        protect-StaysReady (legion_sysfs_init k) _ legion_sysfs_exit sysfs from_hwmon in
      record {
        stays = λ d h.
            unwind-ReadyAfter legion_debugfs_exit _ (from_sysfs.stays (take debugfs_dir d) h);
      }

  pub hardware-StaysReady : StaysReady (add_hardware fw ro k conf)
  unfolding add_hardware ecram_memoryio_init ecram_init ecram_portio_init check_chip acpi_init
  hardware-StaysReady =
      let memory : StaysReady (ecram_memoryio_init k) = record {
        stays = λ d h.
            success _ (one_of_steps k.ioremap (ok tt, take memory_map d) (err enomem, d) h h);
      } in
      let ports : StaysReady (ecram_init k) = record {
        stays = λ d h.
            success _ (one_of_steps k.request_region (ok tt, take io_ports d) (err enodev, d) h h);
      } in
      let chip : StaysReady (λ t. proceed (add_interfaces fw ro k conf) (check_chip fw k conf t)) =
        record {
          stays = λ d h.
              proceed-ReadyAfter (add_interfaces fw ro k conf) (check_chip fw k conf d)
                interfaces-StaysReady (success _ (one_of_steps _ (ok tt, d) (err eio, d) h h));
        } in
      let from_ports = protect-StaysReady (ecram_init k) _ ecram_exit ports chip in
      let from_memory =
        protect-StaysReady (ecram_memoryio_init k) _ ecram_memoryio_exit memory from_ports in
      record {
        stays = λ d h.
            let read = eval_sta_cfg fw k conf d.state in
            proceed-ReadyAfter _ (acpi_init fw k conf d) from_memory (
              success _ (
                one_of_steps (k.force || not conf.acpi_check_dev) (ok tt, d) (put_state d read) h
                  (put_state-IsReady d read h)));
      }

  powermode-IsReady :
      (d : Driver F) (p : Result ℤ × State F) → IsReady d → IsReady (with_powermode d p)
  unfolding with_powermode
  powermode-IsReady d (ok m, s) h = h
  powermode-IsReady d (err c, s) h = h

  pub collect_data-IsReady : (d : Driver F) → IsReady d → IsReady (collect_data fw ro k conf d)
  unfolding collect_data collected
  collect_data-IsReady d h =
      let e = collected fw ro k conf d in powermode-IsReady e (read_powermode fw ro conf e.state) h
