-- ===== src/PowerLimits/Cpu.antt =====
-- The limits of the CPU and their sysfs handlers. The number that a show prints is its result.
use sc_control.Base.{ℕ, true, false, Bool, List, ℤ, pos, negsuc, ltb_ℤ, not, ◌==◌}
use sc_control.Errno.{ok, err, einval}
use sc_control.Capdata.{Capdata01, DiscreteFeature}
use sc_control.Model.Config.{ModelConfig, AccessMethod, wmi3, wmi3_clamped}
use sc_control.Firmware.State.{Firmware, M, fail}
use sc_control.Attributes.Wmi.{cpu_method_guid}
use sc_control.Attributes.Simple.{
  show_simple_wmi_attribute, show_simple_wmi_attribute_from_buffer, store_simple_wmi_attribute,
}
use sc_control.PowerLimits.{
  Parsed, printed, gpu_method_guid, wmi_common_method_other_show, wmi_common_method_other_store,
  clamped, wmi_clamped_store,
}
use sc_control.PowerLimits.Feature
use sc_control.PowerLimits.Coupling.{coupled_store}

-- `!!val`
abbrev nonzero : ℤ → Bool
nonzero (pos n) = not (n == 0)
nonzero (negsuc n) = true

module _ {F : Type 0} (fw : Firmware F) (conf : ModelConfig) (round : ℤ → ℕ → ℕ)
    (capdata : List Capdata01) (features : List DiscreteFeature) where
  cpu_shortterm_powerlimit_show_by : AccessMethod → M F ℤ
  cpu_shortterm_powerlimit_show_by wmi3_clamped =
      wmi_common_method_other_show fw Feature.cpu_short_term_power_limit
  cpu_shortterm_powerlimit_show_by wmi3 =
      wmi_common_method_other_show fw Feature.cpu_short_term_power_limit
  cpu_shortterm_powerlimit_show_by _ =
      printed (show_simple_wmi_attribute_from_buffer fw cpu_method_guid 0 3 16 0 1)

  -- `cpu_shortterm_powerlimit_show`
  unfoldable pub cpu_shortterm_powerlimit_show : M F ℤ
  unfolding cpu_shortterm_powerlimit_show_by
  cpu_shortterm_powerlimit_show = cpu_shortterm_powerlimit_show_by conf.access_method_powerlimits

  unfoldable pub cpu_shortterm_powerlimit_store_by : AccessMethod → Parsed → M F (Unit {0})
  cpu_shortterm_powerlimit_store_by wmi3_clamped text = λ s.
      coupled_store fw (λ pl1 value. ltb_ℤ value pl1) Feature.cpu_long_term_power_limit
        Feature.cpu_short_term_power_limit
        (clamped fw round capdata features Feature.cpu_short_term_power_limit text s) s
  cpu_shortterm_powerlimit_store_by wmi3 text =
      wmi_common_method_other_store fw Feature.cpu_short_term_power_limit text.as_int
  cpu_shortterm_powerlimit_store_by _ text =
      store_simple_wmi_attribute fw cpu_method_guid 0 4 false (pos 1) text.as_unsigned

  -- `cpu_shortterm_powerlimit_store`
  unfoldable pub cpu_shortterm_powerlimit_store : Parsed → M F (Unit {0})
  unfolding cpu_shortterm_powerlimit_store_by
  cpu_shortterm_powerlimit_store text =
      cpu_shortterm_powerlimit_store_by conf.access_method_powerlimits text

  cpu_longterm_powerlimit_show_by : AccessMethod → M F ℤ
  cpu_longterm_powerlimit_show_by wmi3_clamped =
      wmi_common_method_other_show fw Feature.cpu_long_term_power_limit
  cpu_longterm_powerlimit_show_by wmi3 =
      wmi_common_method_other_show fw Feature.cpu_long_term_power_limit
  cpu_longterm_powerlimit_show_by _ =
      printed (show_simple_wmi_attribute_from_buffer fw cpu_method_guid 0 5 16 0 1)

  -- `cpu_longterm_powerlimit_show`
  unfoldable pub cpu_longterm_powerlimit_show : M F ℤ
  unfolding cpu_longterm_powerlimit_show_by
  cpu_longterm_powerlimit_show = cpu_longterm_powerlimit_show_by conf.access_method_powerlimits

  unfoldable pub cpu_longterm_powerlimit_store_by : AccessMethod → Parsed → M F (Unit {0})
  cpu_longterm_powerlimit_store_by wmi3_clamped text = λ s.
      coupled_store fw (λ pl2 value. ltb_ℤ pl2 value) Feature.cpu_short_term_power_limit
        Feature.cpu_long_term_power_limit
        (clamped fw round capdata features Feature.cpu_long_term_power_limit text s) s
  cpu_longterm_powerlimit_store_by wmi3 text =
      wmi_common_method_other_store fw Feature.cpu_long_term_power_limit text.as_int
  cpu_longterm_powerlimit_store_by _ text =
      store_simple_wmi_attribute fw cpu_method_guid 0 6 false (pos 1) text.as_unsigned

  -- `cpu_longterm_powerlimit_store`
  unfoldable pub cpu_longterm_powerlimit_store : Parsed → M F (Unit {0})
  unfolding cpu_longterm_powerlimit_store_by
  cpu_longterm_powerlimit_store text =
      cpu_longterm_powerlimit_store_by conf.access_method_powerlimits text

  -- `cpu_default_powerlimit_show`
  unfoldable pub cpu_default_powerlimit_show : M F ℤ
  cpu_default_powerlimit_show = printed (show_simple_wmi_attribute fw cpu_method_guid 0 7 false 1)

  -- `cpu_pl_coupling_show`
  unfoldable pub cpu_pl_coupling_show : M F Bool
  cpu_pl_coupling_show s = (ok s.cpu_pl_coupling, s)

  -- `cpu_pl_coupling_store`
  unfoldable pub cpu_pl_coupling_store : Parsed → M F (Unit {0})
  cpu_pl_coupling_store text s = elim text.as_int [
    | err e ↦ (err e, s)
    | ok value ↦ (ok tt, record s { cpu_pl_coupling = nonzero value })
  ]

  cpu_peak_powerlimit_show_by : AccessMethod → M F ℤ
  cpu_peak_powerlimit_show_by wmi3 = wmi_common_method_other_show fw Feature.cpu_peak_power_limit
  cpu_peak_powerlimit_show_by _ = printed (show_simple_wmi_attribute fw gpu_method_guid 0 8 false 1)

  -- `cpu_peak_powerlimit_show`
  unfoldable pub cpu_peak_powerlimit_show : M F ℤ
  unfolding cpu_peak_powerlimit_show_by
  cpu_peak_powerlimit_show = cpu_peak_powerlimit_show_by conf.access_method_powerlimits

  cpu_peak_powerlimit_store_by : AccessMethod → Parsed → M F (Unit {0})
  cpu_peak_powerlimit_store_by wmi3 text =
      wmi_common_method_other_store fw Feature.cpu_peak_power_limit text.as_int
  cpu_peak_powerlimit_store_by _ text =
      store_simple_wmi_attribute fw gpu_method_guid 0 9 false (pos 1) text.as_unsigned

  -- `cpu_peak_powerlimit_store`
  unfoldable pub cpu_peak_powerlimit_store : Parsed → M F (Unit {0})
  unfolding cpu_peak_powerlimit_store_by
  cpu_peak_powerlimit_store text = cpu_peak_powerlimit_store_by conf.access_method_powerlimits text

  cpu_apu_sppt_powerlimit_show_by : AccessMethod → M F ℤ
  cpu_apu_sppt_powerlimit_show_by wmi3 = wmi_common_method_other_show fw Feature.apu_ppt_power_limit
  cpu_apu_sppt_powerlimit_show_by _ =
      printed (show_simple_wmi_attribute fw gpu_method_guid 0 12 false 1)

  -- `cpu_apu_sppt_powerlimit_show`
  unfoldable pub cpu_apu_sppt_powerlimit_show : M F ℤ
  unfolding cpu_apu_sppt_powerlimit_show_by
  cpu_apu_sppt_powerlimit_show = cpu_apu_sppt_powerlimit_show_by conf.access_method_powerlimits

  cpu_apu_sppt_powerlimit_store_by : AccessMethod → Parsed → M F (Unit {0})
  cpu_apu_sppt_powerlimit_store_by wmi3 text =
      wmi_common_method_other_store fw Feature.apu_ppt_power_limit text.as_int
  cpu_apu_sppt_powerlimit_store_by _ text =
      store_simple_wmi_attribute fw gpu_method_guid 0 13 false (pos 1) text.as_unsigned

  -- `cpu_apu_sppt_powerlimit_store`
  unfoldable pub cpu_apu_sppt_powerlimit_store : Parsed → M F (Unit {0})
  unfolding cpu_apu_sppt_powerlimit_store_by
  cpu_apu_sppt_powerlimit_store text =
      cpu_apu_sppt_powerlimit_store_by conf.access_method_powerlimits text

  cpu_cross_loading_powerlimit_show_by : AccessMethod → M F ℤ
  cpu_cross_loading_powerlimit_show_by wmi3_clamped =
      wmi_common_method_other_show fw Feature.cpu_cross_load_power_limit
  cpu_cross_loading_powerlimit_show_by wmi3 =
      wmi_common_method_other_show fw Feature.cpu_cross_load_power_limit
  cpu_cross_loading_powerlimit_show_by _ =
      printed (show_simple_wmi_attribute fw gpu_method_guid 0 16 false 1)

  -- `cpu_cross_loading_powerlimit_show`
  unfoldable pub cpu_cross_loading_powerlimit_show : M F ℤ
  unfolding cpu_cross_loading_powerlimit_show_by
  cpu_cross_loading_powerlimit_show =
      cpu_cross_loading_powerlimit_show_by conf.access_method_powerlimits

  cpu_cross_loading_powerlimit_store_by : AccessMethod → Parsed → M F (Unit {0})
  cpu_cross_loading_powerlimit_store_by wmi3_clamped text =
      wmi_clamped_store fw round capdata features Feature.cpu_cross_load_power_limit text
  cpu_cross_loading_powerlimit_store_by wmi3 text =
      wmi_common_method_other_store fw Feature.cpu_cross_load_power_limit text.as_int
  cpu_cross_loading_powerlimit_store_by _ text =
      store_simple_wmi_attribute fw gpu_method_guid 0 17 false (pos 1) text.as_unsigned

  -- `cpu_cross_loading_powerlimit_store`
  unfoldable pub cpu_cross_loading_powerlimit_store : Parsed → M F (Unit {0})
  unfolding cpu_cross_loading_powerlimit_store_by
  cpu_cross_loading_powerlimit_store text =
      cpu_cross_loading_powerlimit_store_by conf.access_method_powerlimits text

  cpu_temperature_limit_show_by : AccessMethod → M F ℤ
  cpu_temperature_limit_show_by wmi3_clamped =
      wmi_common_method_other_show fw Feature.cpu_temperature_limit
  cpu_temperature_limit_show_by wmi3 = wmi_common_method_other_show fw Feature.cpu_temperature_limit
  cpu_temperature_limit_show_by _ = fail einval

  -- `cpu_temperature_limit_show`
  unfoldable pub cpu_temperature_limit_show : M F ℤ
  unfolding cpu_temperature_limit_show_by
  cpu_temperature_limit_show = cpu_temperature_limit_show_by conf.access_method_powerlimits

  cpu_temperature_limit_store_by : AccessMethod → Parsed → M F (Unit {0})
  cpu_temperature_limit_store_by wmi3_clamped text =
      wmi_clamped_store fw round capdata features Feature.cpu_temperature_limit text
  cpu_temperature_limit_store_by _ text = fail einval

  -- `cpu_temperature_limit_store`
  unfoldable pub cpu_temperature_limit_store : Parsed → M F (Unit {0})
  unfolding cpu_temperature_limit_store_by
  cpu_temperature_limit_store text =
      cpu_temperature_limit_store_by conf.access_method_powerlimits text

  cpu_l1_tau_show_by : AccessMethod → M F ℤ
  cpu_l1_tau_show_by wmi3_clamped = wmi_common_method_other_show fw Feature.cpu_l1_tau
  cpu_l1_tau_show_by wmi3 = wmi_common_method_other_show fw Feature.cpu_l1_tau
  cpu_l1_tau_show_by _ = fail einval

  -- `cpu_l1_tau_show`
  unfoldable pub cpu_l1_tau_show : M F ℤ
  unfolding cpu_l1_tau_show_by
  cpu_l1_tau_show = cpu_l1_tau_show_by conf.access_method_powerlimits

  cpu_l1_tau_store_by : AccessMethod → Parsed → M F (Unit {0})
  cpu_l1_tau_store_by wmi3_clamped text =
      wmi_clamped_store fw round capdata features Feature.cpu_l1_tau text
  cpu_l1_tau_store_by _ text = fail einval

  -- `cpu_l1_tau_store`
  unfoldable pub cpu_l1_tau_store : Parsed → M F (Unit {0})
  unfolding cpu_l1_tau_store_by
  cpu_l1_tau_store text = cpu_l1_tau_store_by conf.access_method_powerlimits text
