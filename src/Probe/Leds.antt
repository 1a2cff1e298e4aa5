-- ===== src/Probe/Leds.antt =====
-- Registering the LEDs of the lights, once their brightness could be read, and giving them back.
use sc_control.Base.{ℕ, Bool, true, false, ◌==◌, not, if◌then◌else◌, List, [], ◌∷◌}
use sc_control.Errno.{Result, ok, err, enodev, eexist}
use sc_control.Model.Config.{ModelConfig, AccessMethod, no_access}
use sc_control.Firmware.State.{Firmware}
use sc_control.Lights.{
  light_id_ylogo, light_id_ioport, legion_wmi_light_get, legion_ec_ylogo_get,
  legion_kbd_bl_brightness_get,
}
use sc_control.Probe.{
  Resource, index_of, kbd_led, ylogo_led, ioport_led, Kernel, Driver, Step, register, release,
  put_state,
}

-- Is the resource held?
unfoldable pub holds : Resource → List Resource → Bool
holds r [] = false
holds r (x ∷ xs) = let rest = holds r xs in if index_of r == index_of x then true else rest

-- The registration after the brightness was read.
unfoldable pub then_register :
    {F : Type 0} → Kernel → Resource → Result (Unit {0}) × Driver F → Result (Unit {0}) × Driver F
unfolding register
then_register k r (ok _, d) = register r (k.led_classdev_register r) d
then_register k r (err e, d) = (err e, d)

-- `legion_light_exit` and, for the keyboard, `legion_kbd_bl_exit`
unfoldable pub legion_light_exit : {F : Type 0} → Resource → Driver F → Driver F
legion_light_exit r d = release r d

unfoldable pub legion_kbd_bl_exit : {F : Type 0} → Driver F → Driver F
unfolding legion_light_exit
legion_kbd_bl_exit d = legion_light_exit kbd_led d

abbrev pub is_no_access : AccessMethod → Bool
is_no_access no_access = true
is_no_access _ = false

module _ {F : Type 0} (fw : Firmware F) (k : Kernel) (conf : ModelConfig) where
  -- `legion_kbd_bl_init`
  unfoldable pub legion_kbd_bl_init : Step F
  unfolding then_register
  legion_kbd_bl_init d =
      if holds kbd_led d.held
      then (err eexist, d)
      else if is_no_access conf.access_method_keyboard
      then (err enodev, d)
      else then_register k kbd_led (put_state d (legion_kbd_bl_brightness_get fw d.state))

  -- `legion_ec_ylogo_init`
  unfoldable pub legion_ec_ylogo_init : Step F
  unfolding then_register
  legion_ec_ylogo_init d =
      if holds ylogo_led d.held
      then (err eexist, d)
      else then_register k ylogo_led (put_state d (legion_ec_ylogo_get d.state.ram conf, d.state))

  -- `legion_light_init`
  unfoldable pub legion_light_init : Resource → ℕ → ℕ → ℕ → Step F
  unfolding then_register
  legion_light_init r id lower upper d =
      if holds r d.held
      then (err eexist, d)
      else then_register k r (put_state d (legion_wmi_light_get fw id lower upper d.state))

  -- The lights at the end of the probe, whose errors are not passed on.
  unfoldable pub init_ylogo : Driver F → Driver F
  unfolding legion_ec_ylogo_init legion_light_init
  init_ylogo d =
      if not (conf.ec_ylogo_register == 0)
      then (legion_ec_ylogo_init d).1
      else if not conf.skip_ylogo_light
      then (legion_light_init ylogo_led light_id_ylogo 0 1 d).1
      else d

  unfoldable pub init_lights : Driver F → Driver F
  unfolding legion_kbd_bl_init init_ylogo legion_light_init
  init_lights d =
      let e = init_ylogo (legion_kbd_bl_init d).1 in
      if not conf.skip_ioport_light
      then (legion_light_init ioport_led light_id_ioport 0 2 e).1
      else e
