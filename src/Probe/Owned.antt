-- ===== src/Probe/Owned.antt =====
-- The steps of the probe, put together, admit only own resources.
use sc_control.Base.{ℕ, Bool, true, false, not, ◌||◌, ◌==◌, if◌then◌else◌, All}
use sc_control.Errno.{Result, ok, err, Errno, eexist, enodev, enomem, eio}
use sc_control.Model.Config.{ModelConfig}
use sc_control.Firmware.State.{Firmware, State}
use sc_control.Lights.{
  light_id_ylogo, light_id_ioport, legion_wmi_light_get, legion_ec_ylogo_get,
  legion_kbd_bl_brightness_get,
}
use sc_control.Probe.{
  Resource, memory_map, io_ports, debugfs_dir, sysfs_group, wmi_driver, kbd_led, ylogo_led,
  ioport_led, Kernel, Driver, take, register, put_state, ecram_memoryio_init, ecram_memoryio_exit,
  ecram_portio_init, ecram_init, ecram_exit, legion_debugfs_init, legion_debugfs_exit,
  legion_sysfs_init, legion_sysfs_exit, legion_hwmon_init, legion_hwmon_exit, legion_wmi_init,
  legion_platform_profile_init, legion_platform_profile_exit, acpi_init, eval_sta_cfg, check_chip,
}
use sc_control.Probe.Leds.{
  is_no_access, holds, then_register, legion_kbd_bl_init, legion_ec_ylogo_init, legion_light_init,
  init_ylogo, init_lights,
}
use sc_control.Probe.Add.{proceed, add_wmi, add_interfaces, add_hardware}
use sc_control.Probe.Remove.{Own}
use sc_control.Probe.Success.{
  OwnAfter, Admits, unwind-Own, proceed-Own, protect-Admits, register-Own, flag-Own, check-Own,
  put_state-Own, hwmon-Own, profile-Own, put_state-All, light-held,
}

module _ {F : Type 0} (fw : Firmware F) (ro : Bool) (k : Kernel) (conf : ModelConfig) where
  refuse_or :
      (b : Bool) (e : Errno) (d : Driver F) (p : Result (Unit {0}) × Driver F)
      → All (Own k) d.held
      → All (Own k) p.1.held
      → let q : Result (Unit {0}) × Driver F = if b then (err e, d) else p in All (Own k) q.1.held
  refuse_or true e d p h g = h
  refuse_or false e d p h g = g

  one_of :
      (b : Bool) (d t : Driver F)
      → All (Own k) d.held
      → All (Own k) t.held
      → All (Own k) (if b then d else t).held
  one_of true d t h g = h
  one_of false d t h g = g

  kbd-held :
      (d : Driver F) → All (Own k) d.held → All (Own k) (legion_kbd_bl_init fw k conf d).1.held
  unfolding legion_kbd_bl_init
  kbd-held d h =
      let read = legion_kbd_bl_brightness_get fw d.state in
      let last = then_register k kbd_led (put_state d read) in
      let tried = if is_no_access conf.access_method_keyboard then (err enodev, d) else last in
      refuse_or (holds kbd_led d.held) eexist d tried h (
        refuse_or (is_no_access conf.access_method_keyboard) enodev d last h
          (light-held k kbd_led (put_state d read) tt (put_state-All k d read h)))

  read-held :
      (r : Resource) (d : Driver F) (read : Result ℕ × State F)
      → Own k r
      → All (Own k) d.held
      → let p : Result (Unit {0}) × Driver F =
          if holds r d.held then (err eexist, d) else then_register k r (put_state d read) in
        All (Own k) p.1.held
  read-held r d read w h =
      refuse_or (holds r d.held) eexist d (then_register k r (put_state d read)) h
        (light-held k r (put_state d read) w (put_state-All k d read h))

  ec_ylogo-held :
      (d : Driver F) → All (Own k) d.held → All (Own k) (legion_ec_ylogo_init fw k conf d).1.held
  unfolding legion_ec_ylogo_init
  ec_ylogo-held d h = read-held ylogo_led d (legion_ec_ylogo_get d.state.ram conf, d.state) tt h

  light_init-held :
      (r : Resource) (id lo hi : ℕ) (d : Driver F)
      → Own k r
      → All (Own k) d.held
      → All (Own k) (legion_light_init fw k conf r id lo hi d).1.held
  unfolding legion_light_init
  light_init-held r id lo hi d w h = read-held r d (legion_wmi_light_get fw id lo hi d.state) w h

  ylogo-held : (d : Driver F) → All (Own k) d.held → All (Own k) (init_ylogo fw k conf d).held
  unfolding init_ylogo
  ylogo-held d h =
      let a = (legion_ec_ylogo_init fw k conf d).1 in
      let b = (legion_light_init fw k conf ylogo_led light_id_ylogo 0 1 d).1 in
      one_of (not (conf.ec_ylogo_register == 0)) a (if not conf.skip_ylogo_light then b else d)
        (ec_ylogo-held d h)
        (one_of (not conf.skip_ylogo_light) b d
          (light_init-held ylogo_led light_id_ylogo 0 1 d tt h) h)

  lights-held : (d : Driver F) → All (Own k) d.held → All (Own k) (init_lights fw k conf d).held
  unfolding init_lights
  lights-held d h =
      let b = (legion_kbd_bl_init fw k conf d).1 in
      let e = init_ylogo fw k conf b in
      let own = ylogo-held b (kbd-held d h) in
      one_of (not conf.skip_ioport_light)
        (legion_light_init fw k conf ioport_led light_id_ioport 0 2 e).1 e
        (light_init-held ioport_led light_id_ioport 0 2 e tt own) own

  wmi-Admits : Admits k (add_wmi fw ro k conf)
  unfolding add_wmi legion_wmi_init
  wmi-Admits = record {
    admitted = λ d h.
        proceed-Own k (λ t. (ok tt, init_lights fw k conf t))
          (register wmi_driver k.wmi_driver_register d) (record { admitted = lights-held })
          (register-Own k wmi_driver k.wmi_driver_register d tt h);
  }

  interfaces-Admits : Admits k (add_interfaces fw ro k conf)
  unfolding add_interfaces legion_debugfs_init legion_sysfs_init legion_hwmon_init
      legion_platform_profile_init
  interfaces-Admits =
      let profile : Admits k (legion_platform_profile_init k) = record {
        admitted = λ d h.
            profile-Own k k.enable_platformprofile k.since_6_14 k.platform_profile_register d
              (λ e. e) h;
      } in
      let hwmon : Admits k (legion_hwmon_init k) = record {
        admitted = hwmon-Own k k.hwmon_device_register;
      } in
      let sysfs : Admits k (legion_sysfs_init k) = record {
        admitted = λ d h. register-Own k sysfs_group k.device_add_group d tt h;
      } in
      let from_profile =
        protect-Admits k (legion_platform_profile_init k) (add_wmi fw ro k conf)
          (legion_platform_profile_exit k) profile wmi-Admits in
      let from_hwmon =
        protect-Admits k (legion_hwmon_init k) _ legion_hwmon_exit hwmon from_profile in
      let from_sysfs =
        protect-Admits k (legion_sysfs_init k) _ legion_sysfs_exit sysfs from_hwmon in
      record {
        admitted = λ d h.
            unwind-Own k legion_debugfs_exit _ (from_sysfs.admitted (take debugfs_dir d) (tt, h));
      }

  acpi-Own :
      (b : Bool) (d : Driver F) (p : Result ℕ × State F)
      → All (Own k) d.held
      → OwnAfter k (if b then (ok tt, d) else put_state d p)
  acpi-Own true d p h = h
  acpi-Own false d p h = put_state-Own k d p h

  pub hardware-Admits : Admits k (add_hardware fw ro k conf)
  unfolding add_hardware ecram_memoryio_init ecram_init ecram_portio_init check_chip acpi_init
  hardware-Admits =
      let memory : Admits k (ecram_memoryio_init k) = record {
        admitted = λ d h. flag-Own k memory_map k.ioremap enomem d tt h;
      } in
      let ports : Admits k (ecram_init k) = record {
        admitted = λ d h. flag-Own k io_ports k.request_region enodev d tt h;
      } in
      let chip : Admits k (λ t. proceed (add_interfaces fw ro k conf) (check_chip fw k conf t)) =
        record {
          admitted = λ d h.
              proceed-Own k (add_interfaces fw ro k conf) (check_chip fw k conf d) interfaces-Admits
                (check-Own k _ eio d h);
        } in
      let from_ports = protect-Admits k (ecram_init k) _ ecram_exit ports chip in
      let from_memory =
        protect-Admits k (ecram_memoryio_init k) _ ecram_memoryio_exit memory from_ports in
      record {
        admitted = λ d h.
            proceed-Own k _ (acpi_init fw k conf d) from_memory
              (acpi-Own (k.force || not conf.acpi_check_dev) d (eval_sta_cfg fw k conf d.state) h);
      }
