-- ===== src/PowerLimits/Gpu.antt =====
-- The limits of the GPU and their sysfs handlers. The number that a show prints is its result.
use sc_control.Base.{ℕ, false, List, ℤ, pos}
use sc_control.Errno.{einval}
use sc_control.Capdata.{Capdata01, DiscreteFeature}
use sc_control.Model.Config.{ModelConfig, AccessMethod, wmi3, wmi3_clamped}
use sc_control.Firmware.State.{Firmware, M, fail}
use sc_control.Attributes.Simple.{
  show_simple_wmi_attribute, show_simple_wmi_attribute_from_buffer, store_simple_wmi_attribute,
}
use sc_control.PowerLimits.{
  Parsed, printed, gpu_method_guid, wmi_common_method_other_show, wmi_common_method_other_store,
  wmi_clamped_store,
}
use sc_control.PowerLimits.Feature

module _ {F : Type 0} (fw : Firmware F) (conf : ModelConfig) (round : ℤ → ℕ → ℕ)
    (capdata : List Capdata01) (features : List DiscreteFeature) where
  gpu_oc_show_by : AccessMethod → M F ℤ
  gpu_oc_show_by wmi3_clamped = wmi_common_method_other_show fw Feature.gpu_power_boost
  gpu_oc_show_by _ = printed (show_simple_wmi_attribute fw gpu_method_guid 0 1 false 1)

  -- `gpu_oc_show`
  unfoldable pub gpu_oc_show : M F ℤ
  unfolding gpu_oc_show_by
  gpu_oc_show = gpu_oc_show_by conf.access_method_powerlimits

  gpu_oc_store_by : AccessMethod → Parsed → M F (Unit {0})
  gpu_oc_store_by wmi3_clamped text =
      wmi_clamped_store fw round capdata features Feature.gpu_power_boost text
  gpu_oc_store_by _ text =
      store_simple_wmi_attribute fw gpu_method_guid 0 2 false (pos 1) text.as_unsigned

  -- `gpu_oc_store`
  unfoldable pub gpu_oc_store : Parsed → M F (Unit {0})
  unfolding gpu_oc_store_by
  gpu_oc_store text = gpu_oc_store_by conf.access_method_powerlimits text

  gpu_ppab_powerlimit_show_by : AccessMethod → M F ℤ
  gpu_ppab_powerlimit_show_by wmi3_clamped = wmi_common_method_other_show fw Feature.gpu_power_boost
  gpu_ppab_powerlimit_show_by wmi3 = wmi_common_method_other_show fw Feature.gpu_power_boost
  gpu_ppab_powerlimit_show_by _ =
      printed (show_simple_wmi_attribute_from_buffer fw gpu_method_guid 0 3 16 0 1)

  -- `gpu_ppab_powerlimit_show`
  unfoldable pub gpu_ppab_powerlimit_show : M F ℤ
  unfolding gpu_ppab_powerlimit_show_by
  gpu_ppab_powerlimit_show = gpu_ppab_powerlimit_show_by conf.access_method_powerlimits

  gpu_ppab_powerlimit_store_by : AccessMethod → Parsed → M F (Unit {0})
  gpu_ppab_powerlimit_store_by wmi3_clamped text =
      wmi_clamped_store fw round capdata features Feature.gpu_power_boost text
  gpu_ppab_powerlimit_store_by wmi3 text =
      wmi_common_method_other_store fw Feature.gpu_power_boost text.as_int
  gpu_ppab_powerlimit_store_by _ text =
      store_simple_wmi_attribute fw gpu_method_guid 0 4 false (pos 1) text.as_unsigned

  -- `gpu_ppab_powerlimit_store`
  unfoldable pub gpu_ppab_powerlimit_store : Parsed → M F (Unit {0})
  unfolding gpu_ppab_powerlimit_store_by
  gpu_ppab_powerlimit_store text = gpu_ppab_powerlimit_store_by conf.access_method_powerlimits text

  gpu_ctgp_powerlimit_show_by : AccessMethod → M F ℤ
  gpu_ctgp_powerlimit_show_by wmi3_clamped = wmi_common_method_other_show fw Feature.gpu_ctgp
  gpu_ctgp_powerlimit_show_by wmi3 = wmi_common_method_other_show fw Feature.gpu_ctgp
  gpu_ctgp_powerlimit_show_by _ =
      printed (show_simple_wmi_attribute_from_buffer fw gpu_method_guid 0 5 16 0 1)

  -- `gpu_ctgp_powerlimit_show`
  unfoldable pub gpu_ctgp_powerlimit_show : M F ℤ
  unfolding gpu_ctgp_powerlimit_show_by
  gpu_ctgp_powerlimit_show = gpu_ctgp_powerlimit_show_by conf.access_method_powerlimits

  gpu_ctgp_powerlimit_store_by : AccessMethod → Parsed → M F (Unit {0})
  gpu_ctgp_powerlimit_store_by wmi3_clamped text =
      wmi_clamped_store fw round capdata features Feature.gpu_ctgp text
  gpu_ctgp_powerlimit_store_by wmi3 text =
      wmi_common_method_other_store fw Feature.gpu_ctgp text.as_int
  gpu_ctgp_powerlimit_store_by _ text =
      store_simple_wmi_attribute fw gpu_method_guid 0 6 false (pos 1) text.as_unsigned

  -- `gpu_ctgp_powerlimit_store`
  unfoldable pub gpu_ctgp_powerlimit_store : Parsed → M F (Unit {0})
  unfolding gpu_ctgp_powerlimit_store_by
  gpu_ctgp_powerlimit_store text = gpu_ctgp_powerlimit_store_by conf.access_method_powerlimits text

  -- `gpu_ctgp2_powerlimit_show`
  unfoldable pub gpu_ctgp2_powerlimit_show : M F ℤ
  gpu_ctgp2_powerlimit_show =
      printed (show_simple_wmi_attribute_from_buffer fw gpu_method_guid 0 5 16 0x0c 1)

  -- `gpu_default_ppab_ctrgp_powerlimit_show`
  unfoldable pub gpu_default_ppab_ctrgp_powerlimit_show : M F ℤ
  gpu_default_ppab_ctrgp_powerlimit_show =
      printed (show_simple_wmi_attribute fw gpu_method_guid 0 7 false 1)

  gpu_temperature_limit_show_by : AccessMethod → M F ℤ
  gpu_temperature_limit_show_by wmi3_clamped =
      wmi_common_method_other_show fw Feature.gpu_temperature_limit
  gpu_temperature_limit_show_by wmi3 = wmi_common_method_other_show fw Feature.gpu_temperature_limit
  gpu_temperature_limit_show_by _ =
      printed (show_simple_wmi_attribute fw gpu_method_guid 0 8 false 1)

  -- `gpu_temperature_limit_show`
  unfoldable pub gpu_temperature_limit_show : M F ℤ
  unfolding gpu_temperature_limit_show_by
  gpu_temperature_limit_show = gpu_temperature_limit_show_by conf.access_method_powerlimits

  gpu_temperature_limit_store_by : AccessMethod → Parsed → M F (Unit {0})
  gpu_temperature_limit_store_by wmi3_clamped text =
      wmi_clamped_store fw round capdata features Feature.gpu_temperature_limit text
  gpu_temperature_limit_store_by _ text =
      store_simple_wmi_attribute fw gpu_method_guid 0 9 false (pos 1) text.as_unsigned

  -- `gpu_temperature_limit_store`
  unfoldable pub gpu_temperature_limit_store : Parsed → M F (Unit {0})
  unfolding gpu_temperature_limit_store_by
  gpu_temperature_limit_store text =
      gpu_temperature_limit_store_by conf.access_method_powerlimits text

  gpu_power_target_offset_show_by : AccessMethod → M F ℤ
  gpu_power_target_offset_show_by wmi3_clamped =
      wmi_common_method_other_show fw Feature.gpu_power_target_on_ac_offset
  gpu_power_target_offset_show_by wmi3 =
      wmi_common_method_other_show fw Feature.gpu_power_target_on_ac_offset
  gpu_power_target_offset_show_by _ = fail einval

  -- `gpu_power_target_offset_show`
  unfoldable pub gpu_power_target_offset_show : M F ℤ
  unfolding gpu_power_target_offset_show_by
  gpu_power_target_offset_show = gpu_power_target_offset_show_by conf.access_method_powerlimits

  gpu_power_target_offset_store_by : AccessMethod → Parsed → M F (Unit {0})
  gpu_power_target_offset_store_by wmi3_clamped text =
      wmi_clamped_store fw round capdata features Feature.gpu_power_target_on_ac_offset text
  gpu_power_target_offset_store_by _ text = fail einval

  -- `gpu_power_target_offset_store`
  unfoldable pub gpu_power_target_offset_store : Parsed → M F (Unit {0})
  unfolding gpu_power_target_offset_store_by
  gpu_power_target_offset_store text =
      gpu_power_target_offset_store_by conf.access_method_powerlimits text

  -- `gpu_boost_clock_show`
  unfoldable pub gpu_boost_clock_show : M F ℤ
  gpu_boost_clock_show = printed (show_simple_wmi_attribute fw gpu_method_guid 0 10 false 1)
