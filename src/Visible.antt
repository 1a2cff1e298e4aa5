-- ===== src/Visible.antt =====
-- Which attributes a model shows: `legion_sysfs_is_visible` and the two tests of the hwmon attributes. A
-- test gives whether the attribute keeps its mode.
pub mod Answers
pub mod Readable
pub mod Sensors
use sc_control.Base.{ℕ, Bool, true, false, not, ◌&&◌, if◌then◌else◌}
use sc_control.Model.Config.{
  ModelConfig, AccessMethod, ec4, get_model_acpi_path, acpi_path_read_rapidcharge,
  acpi_path_write_rapidcharge,
}
use sc_control.Firmware.State.{Firmware}
use sc_control.Firmware.Acpi.{acpi_method_exists}
use sc_control.Attributes.Wmi.{cpu_method_guid}
use sc_control.PowerLimits.{gpu_method_guid}
use sc_control.Probe.Leds.{is_no_access}

-- The sysfs attributes that a test names; `other_attr` is any other.
pub data SysfsAttr : Type 0 where
  rapidcharge battery_conservation fn_lock flip_to_start fan_fullspeed fan_unlock : SysfsAttr
  cpu_oc cpu_shortterm_powerlimit cpu_longterm_powerlimit cpu_default_powerlimit : SysfsAttr
  cpu_apu_sppt_powerlimit cpu_peak_powerlimit cpu_cross_loading_powerlimit : SysfsAttr
  cpu_pl_coupling gpu_oc gpu_ppab_powerlimit gpu_ctgp_powerlimit gpu_ctgp2_powerlimit : SysfsAttr
  gpu_default_ppab_ctrgp_powerlimit gpu_temperature_limit gpu_boost_clock other_attr : SysfsAttr

-- `legion_attribute_uses_cpu_wmi`
unfoldable pub legion_attribute_uses_cpu_wmi : SysfsAttr → Bool
legion_attribute_uses_cpu_wmi cpu_oc = true
legion_attribute_uses_cpu_wmi cpu_shortterm_powerlimit = true
legion_attribute_uses_cpu_wmi cpu_longterm_powerlimit = true
legion_attribute_uses_cpu_wmi cpu_default_powerlimit = true
legion_attribute_uses_cpu_wmi _ = false

-- `legion_attribute_uses_gpu_wmi`
unfoldable pub legion_attribute_uses_gpu_wmi : SysfsAttr → Bool
legion_attribute_uses_gpu_wmi cpu_apu_sppt_powerlimit = true
legion_attribute_uses_gpu_wmi cpu_peak_powerlimit = true
legion_attribute_uses_gpu_wmi cpu_cross_loading_powerlimit = true
legion_attribute_uses_gpu_wmi gpu_oc = true
legion_attribute_uses_gpu_wmi gpu_ppab_powerlimit = true
legion_attribute_uses_gpu_wmi gpu_ctgp_powerlimit = true
legion_attribute_uses_gpu_wmi gpu_ctgp2_powerlimit = true
legion_attribute_uses_gpu_wmi gpu_default_ppab_ctrgp_powerlimit = true
legion_attribute_uses_gpu_wmi gpu_temperature_limit = true
legion_attribute_uses_gpu_wmi gpu_boost_clock = true
legion_attribute_uses_gpu_wmi _ = false

-- The attributes that `skip_oc_controls` hides: all those of the CPU's and the GPU's interfaces.
unfoldable pub is_oc_control : SysfsAttr → Bool
is_oc_control cpu_oc = true
is_oc_control gpu_oc = true
is_oc_control cpu_shortterm_powerlimit = true
is_oc_control cpu_longterm_powerlimit = true
is_oc_control cpu_peak_powerlimit = true
is_oc_control cpu_default_powerlimit = true
is_oc_control cpu_apu_sppt_powerlimit = true
is_oc_control cpu_cross_loading_powerlimit = true
is_oc_control gpu_ppab_powerlimit = true
is_oc_control gpu_ctgp_powerlimit = true
is_oc_control gpu_ctgp2_powerlimit = true
is_oc_control gpu_default_ppab_ctrgp_powerlimit = true
is_oc_control gpu_temperature_limit = true
is_oc_control gpu_boost_clock = true
is_oc_control _ = false

abbrev is_ec4 : AccessMethod → Bool
is_ec4 ec4 = true
is_ec4 _ = false

module _ {F : Type 0} (fw : Firmware F) (conf : ModelConfig) where
  -- `legion_rapidcharge_is_supported`
  unfoldable pub legion_rapidcharge_is_supported : Bool
  legion_rapidcharge_is_supported =
      acpi_method_exists fw (get_model_acpi_path conf acpi_path_read_rapidcharge)
      && acpi_method_exists fw (get_model_acpi_path conf acpi_path_write_rapidcharge)

  -- The tests of the interfaces, and the last ones of `legion_sysfs_is_visible`.
  unfoldable pub controls_visible : SysfsAttr → Bool
  controls_visible attr =
      if legion_attribute_uses_cpu_wmi attr && not (fw.has_guid cpu_method_guid)
      then false
      else if legion_attribute_uses_gpu_wmi attr && not (fw.has_guid gpu_method_guid)
      then false
      else not (conf.skip_oc_controls && is_oc_control attr)

  -- `legion_sysfs_is_visible`, of a device with its data
  unfoldable pub legion_sysfs_is_visible : SysfsAttr → Bool
  unfolding controls_visible legion_rapidcharge_is_supported
  legion_sysfs_is_visible rapidcharge = legion_rapidcharge_is_supported
  legion_sysfs_is_visible battery_conservation = legion_rapidcharge_is_supported
  legion_sysfs_is_visible fn_lock = conf.has_fn_lock
  legion_sysfs_is_visible flip_to_start = conf.has_flip_to_start
  legion_sysfs_is_visible fan_fullspeed = not (is_no_access conf.access_method_fanfullspeed)
  legion_sysfs_is_visible cpu_pl_coupling = conf.has_pl_coupling
  legion_sysfs_is_visible fan_unlock = conf.has_fan_unlock
  legion_sysfs_is_visible attr = controls_visible attr

-- The attributes of the fan curve's group: a point's, with the channel of the fan or the temperature, and
-- the others.
pub data CurveAttr : Type 0 where
  fan1_max fan2_max auto_points_size minifancurve fancurve_defaults_powermode : CurveAttr
  pwm1_point_pwm pwm2_point_pwm point_temperature point_accel point_decel : CurveAttr

-- `legion_wmi_fancurve_speed_attribute`
unfoldable pub legion_wmi_fancurve_speed_attribute : CurveAttr → Bool
legion_wmi_fancurve_speed_attribute fan1_max = true
legion_wmi_fancurve_speed_attribute pwm1_point_pwm = true
legion_wmi_fancurve_speed_attribute _ = false

-- `legion_ec4_fancurve_unsupported_attribute`
unfoldable pub legion_ec4_fancurve_unsupported_attribute : CurveAttr → Bool
legion_ec4_fancurve_unsupported_attribute point_accel = true
legion_ec4_fancurve_unsupported_attribute point_decel = true
legion_ec4_fancurve_unsupported_attribute _ = false

-- The support of an attribute by itself.
abbrev curve_supported : ModelConfig → CurveAttr → Bool
curve_supported conf minifancurve = conf.has_minifancurve
curve_supported conf fancurve_defaults_powermode = conf.has_fancurve_defaults
curve_supported conf _ = true

-- `legion_hwmon_fancurve_is_visible`
unfoldable pub legion_hwmon_fancurve_is_visible : ModelConfig → CurveAttr → Bool
legion_hwmon_fancurve_is_visible conf attr =
    if conf.wmi_fancurve_speed_only && not (legion_wmi_fancurve_speed_attribute attr)
    then false
    else if is_ec4 conf.access_method_fancurve && legion_ec4_fancurve_unsupported_attribute attr
    then false
    else curve_supported conf attr && not (is_no_access conf.access_method_fancurve)
