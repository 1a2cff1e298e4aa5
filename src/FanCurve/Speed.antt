-- ===== src/FanCurve/Speed.antt =====
-- `fancurve_set_speed_pwm` and `fancurve_get_speed_pwm`: a PWM value 0-255 in the unit of the curve.
pub mod Laws
pub mod Restore
use sc_control.Base.{
  ℕ, ◌+◌, ◌-◌, ◌*◌, ◌/◌, ◌≤◌, ◌<◌, Bool, true, false, ◌&&◌, Option, none, some, ltb, leb, ◌==◌,
  if◌then◌else◌, u8, u32, ℤ, pos, pos_part, ltb_ℤ, leb_ℤ,
}
use sc_control.FanCurve.{
  FanCurve, FanCurvePoint, FanSpeedUnit, unset, percent, pwm, rpm_hundred, percent_nearest,
  max_rpm_default, point_at, set_point,
}

-- `clamp_t(u8, v, lo, hi)` converts all three to u8 before it clamps.
abbrev pub clamp_u8 : ℕ → ℕ → ℕ → ℕ
clamp_u8 v lo hi = if ltb (u8 v) lo then lo else if ltb hi (u8 v) then hi else u8 v

-- The curve's maximum, or MAX_RPM where it is 0.
abbrev pub effective_max_rpm : FanCurve → ℕ
effective_max_rpm c = if c.max_rpm == 0 then max_rpm_default else c.max_rpm

-- The stored speed of a PWM value; none for a unit without a method.
unfoldable pub encode_speed : FanSpeedUnit → ℕ → ℕ → Option ℕ
encode_speed unset max_rpm value = none
encode_speed percent max_rpm value = some (clamp_u8 (value * 100 / 255) 0 255)
encode_speed percent_nearest max_rpm value = some (clamp_u8 ((value * 100 + 127) / 255) 0 100)
encode_speed pwm max_rpm value = some (clamp_u8 value 0 255)
encode_speed rpm_hundred max_rpm value =
    some (clamp_u8 (u32 (value * max_rpm + 25499) / 25500) 0 255)

-- The PWM value of a stored speed.
unfoldable pub decode_speed : FanSpeedUnit → ℕ → ℕ → Option ℕ
decode_speed unset max_rpm speed = none
decode_speed percent max_rpm speed = some (speed * 255 / 100)
decode_speed percent_nearest max_rpm speed = some (speed * 255 / 100)
decode_speed pwm max_rpm speed = some speed
decode_speed rpm_hundred max_rpm speed = some (speed * 255 * 100 / max_rpm)

abbrev pub speed_of : FanCurvePoint → ℕ → ℕ
speed_of p fan_id = if fan_id == 0 then p.speed1 else p.speed2

abbrev pub set_speed : FanCurvePoint → ℕ → ℕ → FanCurvePoint
set_speed p fan_id v = if fan_id == 0 then record p { speed1 = v } else record p { speed2 = v }

-- The assignment through `speed`, where the unit has a method.
unfoldable pub store_speed : FanCurve → ℕ → ℕ → Option ℕ → FanCurve × Bool
store_speed c i fan_id (some v) = (set_point c i (set_speed (point_at c i) fan_id v), true)
store_speed c i fan_id none = (c, false)

-- `fancurve_set_speed_pwm`
unfoldable pub fancurve_set_speed_pwm : FanCurve → ℕ → ℕ → ℤ → FanCurve × Bool
unfolding encode_speed store_speed
fancurve_set_speed_pwm c i fan_id value =
    if leb_ℤ (pos 0) value && leb_ℤ value (pos 255)
    then if ltb i c.size && ltb fan_id 2
      then store_speed c i fan_id
          (encode_speed c.fan_speed_unit (effective_max_rpm c) (pos_part value))
      else (c, false)
    else (c, false)

-- `fancurve_get_speed_pwm`
unfoldable pub fancurve_get_speed_pwm : FanCurve → ℕ → ℕ → Option ℕ
unfolding decode_speed
fancurve_get_speed_pwm c point_id fan_id =
    if ltb point_id c.size && ltb fan_id 2
    then decode_speed c.fan_speed_unit (effective_max_rpm c) (speed_of (point_at c point_id) fan_id)
    else none
