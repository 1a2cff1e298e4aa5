-- ===== src/Lights.antt =====
-- The lights: the keyboard, the Y-logo and the IO ports over WMI, and the Y-logo in an EC register.
pub mod RoundTrip
use sc_control.Base.{
  ℕ, ◌+◌, ◌-◌, ◌%◌, ◌==◌, ltb, leb, Bool, ◌&&◌, if◌then◌else◌, String, List, [], ◌∷◌, get_or, u8,
  u32,
}
use sc_control.Errno.{Result, ok, err, eio, enodev, einval, erange}
use sc_control.Ec.{Ram, ecram_read, ecram_write}
use sc_control.Model.Config.{ModelConfig}
use sc_control.Firmware.State.{Firmware, State, M, pure, or_code, ◌>>=◌}
use sc_control.Firmware.Wmi.{wmi_exec_ints, wmi_exec_int, wmi_exec_noarg_int}
use sc_control.PowerMode.Access.{gamezone_guid}

abbrev pub kbbacklight_guid : String
kbbacklight_guid = "8C5B9127-ECD4-4657-980F-851019F99CA5"

abbrev pub light_id_keyboard : ℕ
light_id_keyboard = 0x00

abbrev pub light_id_ylogo : ℕ
light_id_ylogo = 0x03

abbrev pub light_id_ioport : ℕ
light_id_ioport = 0x05

-- `clamp` of the kernel on numbers without a sign.
abbrev pub clamp_nat : ℕ → ℕ → ℕ → ℕ
clamp_nat value lo hi = if ltb value lo then lo else if ltb hi value then hi else value

-- The brightness in an answer of two bytes, the range test included.
unfoldable pub brightness_of : ℕ → ℕ → ℕ → List ℕ → Result ℕ
brightness_of light_id min_value max_value bytes =
    let value = get_or bytes 1 0 in
    if light_id == light_id_ylogo
    then ok (if get_or bytes 0 0 == 1 then 1 else 0)
    else if leb min_value value && leb value max_value
    then ok (value - min_value)
    else if light_id == light_id_ioport && (value == 0)
    then err enodev
    else err erange

-- The three bytes of a change.
unfoldable pub light_params : ℕ → ℕ → ℕ → ℕ → List ℕ
light_params light_id min_value max_value brightness =
    if light_id == light_id_ylogo
    then light_id ∷ (if brightness == 0 then 2 else 1) ∷ 0 ∷ []
    else light_id ∷ 1 ∷ u8 (clamp_nat (u32 (brightness + min_value)) min_value max_value) ∷ []

-- `legion_ec_ylogo_get`
unfoldable pub legion_ec_ylogo_get : Ram → ModelConfig → Result ℕ
legion_ec_ylogo_get ram conf =
    let value = ecram_read ram conf.ec_ylogo_register in
    if ltb 2 value then err erange else ok (2 - value)

-- `legion_ec_ylogo_set`
unfoldable pub legion_ec_ylogo_set : Bool → Ram → ModelConfig → ℕ → Result (Unit {0}) × Ram
legion_ec_ylogo_set ro ram conf brightness =
    if ltb 2 brightness
    then (err einval, ram)
    else (ok tt, ecram_write ro ram conf.ec_ylogo_register (2 - brightness))

-- What an operation makes of a result that may be refused.
unfoldable pub refine : {F A B : Type 0} → (A → Result B) → Result A × State F → Result B × State F
refine f (ok a, t) = (f a, t)
refine f (err e, t) = (err e, t)

module _ {F : Type 0} (fw : Firmware F) where
  -- `legion_wmi_light_get`
  unfoldable pub legion_wmi_light_get : ℕ → ℕ → ℕ → M F ℕ
  unfolding refine
  legion_wmi_light_get light_id min_value max_value s =
      refine (brightness_of light_id min_value max_value)
        (or_code (wmi_exec_ints fw kbbacklight_guid 0 1 (light_id ∷ []) 2) eio s)

  -- `legion_wmi_light_set`
  unfoldable pub legion_wmi_light_set : ℕ → ℕ → ℕ → ℕ → M F (Unit {0})
  legion_wmi_light_set light_id min_value max_value brightness = do
    _ ←
        or_code
          (wmi_exec_int fw kbbacklight_guid 0 2
            (light_params light_id min_value max_value brightness))
          eio
    pure tt

  -- `legion_kbd_bl_brightness_get`
  unfoldable pub legion_kbd_bl_brightness_get : M F ℕ
  unfolding legion_wmi_light_get
  legion_kbd_bl_brightness_get = legion_wmi_light_get light_id_keyboard 1 3

  -- `legion_kbd_bl_brightness_set`
  unfoldable pub legion_kbd_bl_brightness_set : ℕ → M F (Unit {0})
  unfolding legion_wmi_light_set
  legion_kbd_bl_brightness_set brightness = legion_wmi_light_set light_id_keyboard 1 3 brightness

  -- `legion_kbd_bl2_brightness_get`
  unfoldable pub legion_kbd_bl2_brightness_get : M F ℕ
  legion_kbd_bl2_brightness_get = or_code (wmi_exec_noarg_int fw gamezone_guid 0 37) einval
