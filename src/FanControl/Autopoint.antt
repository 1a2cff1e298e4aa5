-- ===== src/FanControl/Autopoint.antt =====
-- The hwmon attributes of a point of the fan curve: `autopoint_show` and `autopoint_store`.
pub mod Laws
pub mod Success
pub mod Fields
pub mod StoreShow
use sc_control.Base.{ℕ, Bool, true, false, not, ◌&&◌, ltb, if◌then◌else◌, ℤ, Option, none, some}
use sc_control.Errno.{Result, ok, err, Errno, eopnotsupp}
use sc_control.Model.Config.{ModelConfig}
use sc_control.Firmware.State.{Firmware, State, M}
use sc_control.FanCurve.{FanCurve, max_fancurve_size, point_at}
use sc_control.FanCurve.Speed.{fancurve_set_speed_pwm, fancurve_get_speed_pwm}
use sc_control.FanCurve.Setters.{
  fancurve_set_accel, fancurve_set_decel, fancurve_set_cpu_temp_max, fancurve_set_gpu_temp_max,
  fancurve_set_ic_temp_max, fancurve_set_cpu_temp_min, fancurve_set_gpu_temp_min,
  fancurve_set_ic_temp_min, fancurve_set_size,
}
use sc_control.FanControl.Switches.{fan_control_write_allowed}
use sc_control.FanControl.FullSpeed.{when_ok}
use sc_control.FanControl.Curve.{read_fancurve, write_fancurve}

-- `enum FANCURVE_ATTR`
pub data FanCurveAttr : Type 0 where
  attr_pwm1 attr_pwm2 attr_cpu_temp attr_cpu_hyst attr_gpu_temp attr_gpu_hyst attr_ic_temp
        attr_ic_hyst :
      FanCurveAttr
  attr_accel attr_decel attr_size attr_minifancurve_on_cool : FanCurveAttr

abbrev pub is_pwm1 : FanCurveAttr → Bool
is_pwm1 attr_pwm1 = true
is_pwm1 _ = false

abbrev pub is_size : FanCurveAttr → Bool
is_size attr_size = true
is_size _ = false

-- `if (!ok) value = 0;`
abbrev pub or_zero : Option ℕ → ℕ
or_zero none = 0
or_zero (some v) = v

-- The switch of `autopoint_show`.
unfoldable pub get_attr : FanCurveAttr → FanCurve → ℕ → Result ℕ
get_attr attr_pwm1 c i = ok (or_zero (fancurve_get_speed_pwm c i 0))
get_attr attr_pwm2 c i = ok (or_zero (fancurve_get_speed_pwm c i 1))
get_attr attr_cpu_temp c i = ok (point_at c i).cpu_max_temp_celsius
get_attr attr_cpu_hyst c i = ok (point_at c i).cpu_min_temp_celsius
get_attr attr_gpu_temp c i = ok (point_at c i).gpu_max_temp_celsius
get_attr attr_gpu_hyst c i = ok (point_at c i).gpu_min_temp_celsius
get_attr attr_ic_temp c i = ok (point_at c i).ic_max_temp_celsius
get_attr attr_ic_hyst c i = ok (point_at c i).ic_min_temp_celsius
get_attr attr_accel c i = ok (point_at c i).accel
get_attr attr_decel c i = ok (point_at c i).decel
get_attr attr_size c i = ok c.size
get_attr attr_minifancurve_on_cool c i = err eopnotsupp

-- The switch of `autopoint_store`; none for an attribute without a setter.
unfoldable pub set_attr : FanCurveAttr → FanCurve → ℕ → ℤ → Option (FanCurve × Bool)
set_attr attr_pwm1 c i v = some (fancurve_set_speed_pwm c i 0 v)
set_attr attr_pwm2 c i v = some (fancurve_set_speed_pwm c i 1 v)
set_attr attr_cpu_temp c i v = some (fancurve_set_cpu_temp_max c i v)
set_attr attr_cpu_hyst c i v = some (fancurve_set_cpu_temp_min c i v)
set_attr attr_gpu_temp c i v = some (fancurve_set_gpu_temp_max c i v)
set_attr attr_gpu_hyst c i v = some (fancurve_set_gpu_temp_min c i v)
set_attr attr_ic_temp c i v = some (fancurve_set_ic_temp_max c i v)
set_attr attr_ic_hyst c i v = some (fancurve_set_ic_temp_min c i v)
set_attr attr_accel c i v = some (fancurve_set_accel c i v)
set_attr attr_decel c i v = some (fancurve_set_decel c i v)
set_attr attr_size c i v = some (fancurve_set_size c v true)
set_attr attr_minifancurve_on_cool c i v = none

-- The step after `read_fancurve`, whose failures are all reported as eopnotsupp.
unfoldable pub after_read :
    {F A : Type 0} → (FanCurve → M F A) → Result FanCurve × State F → Result A × State F
after_read act (ok c, s) = act c s
after_read act (err e, s) = (err eopnotsupp, s)

-- The end of `autopoint_store`.
unfoldable pub or_unsupported :
    {F : Type 0} → Result (Unit {0}) × State F → Result (Unit {0}) × State F
or_unsupported (ok u, s) = (ok tt, s)
or_unsupported (err e, s) = (err eopnotsupp, s)

-- The write of a curve that a setter accepted.
unfoldable pub write_edited :
    {F : Type 0} → (FanCurve → M F (Unit {0})) → Option (FanCurve × Bool) → M F (Unit {0})
write_edited write none s = (err eopnotsupp, s)
write_edited write (some (c, true)) s = or_unsupported (write c s)
write_edited write (some (c, false)) s = (err eopnotsupp, s)

module _ {F : Type 0} (fw : Firmware F) (ro : Bool) (conf : ModelConfig) where
  module _ (before : FanCurve) (attr : FanCurveAttr) (point_id : ℕ) where
    -- `autopoint_show`, from what its local structure held before.
    unfoldable pub autopoint_show : M F ℕ
    autopoint_show s =
        after_read
          (λ c t. (
            if ltb point_id max_fancurve_size then get_attr attr c point_id else err eopnotsupp,
            t,
          ))
          (read_fancurve fw ro conf before s)

    -- The part of `autopoint_store` under the mutex.
    unfoldable pub store_value : ℤ → M F (Unit {0})
    store_value value s =
        when_ok
          (λ t.
            after_read
              (λ c.
                write_edited (λ d. write_fancurve fw ro conf d (is_size attr))
                  (set_attr attr c point_id value))
              (read_fancurve fw ro conf before t))
          (fan_control_write_allowed s.ram conf, s)

    -- `autopoint_store`, from what `kstrtoint` made of the text.
    unfoldable pub autopoint_store : Result ℤ → M F (Unit {0})
    autopoint_store parsed s =
        if conf.wmi_fancurve_speed_only && not (is_pwm1 attr)
        then (err eopnotsupp, s)
        else if ltb point_id max_fancurve_size
        then elim parsed [ err e ↦ (err e, s) | ok value ↦ store_value value s ]
        else (err eopnotsupp, s)
