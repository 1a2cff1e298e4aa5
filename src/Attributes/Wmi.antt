-- ===== src/Attributes/Wmi.antt =====
-- The attributes that are one WMI value of the game zone, of the CPU or of the fans.
use sc_control.Base.{ℕ, true, false, String, pos}
use sc_control.Errno.{Result}
use sc_control.Firmware.State.{Firmware, M}
use sc_control.PowerMode.Access.{gamezone_guid}
use sc_control.FanControl.FullSpeed.{fan_method_guid}
use sc_control.Attributes.Simple.{
  show_simple_wmi_attribute, show_simple_wmi_attribute_from_buffer, store_simple_wmi_attribute,
}

abbrev pub cpu_method_guid : String
cpu_method_guid = "14afd777-106f-4c9b-b334-d388dc7809be"

module _ {F : Type 0} (fw : Firmware F) where
  unfoldable pub issupportgpuoc_show : M F ℕ
  unfolding show_simple_wmi_attribute
  issupportgpuoc_show = show_simple_wmi_attribute fw gamezone_guid 0 4 false 1

  unfoldable pub aslcodeversion_show : M F ℕ
  unfolding show_simple_wmi_attribute
  aslcodeversion_show = show_simple_wmi_attribute fw gamezone_guid 0 11 false 1

  unfoldable pub issupportcpuoc_show : M F ℕ
  unfolding show_simple_wmi_attribute
  issupportcpuoc_show = show_simple_wmi_attribute fw gamezone_guid 0 14 false 1

  unfoldable pub powerchargemode_show : M F ℕ
  unfolding show_simple_wmi_attribute
  powerchargemode_show = show_simple_wmi_attribute fw gamezone_guid 0 47 false 1

  unfoldable pub thermalmode_show : M F ℕ
  unfolding show_simple_wmi_attribute
  thermalmode_show = show_simple_wmi_attribute fw gamezone_guid 0 55 false 1

  unfoldable pub cpumaxfrequency_show : M F ℕ
  unfolding show_simple_wmi_attribute
  cpumaxfrequency_show = show_simple_wmi_attribute fw gamezone_guid 0 60 false 1

  unfoldable pub isacfitforoc_show : M F ℕ
  unfolding show_simple_wmi_attribute
  isacfitforoc_show = show_simple_wmi_attribute fw gamezone_guid 0 62 false 1

  unfoldable pub issupportigpumode_show : M F ℕ
  unfolding show_simple_wmi_attribute
  issupportigpumode_show = show_simple_wmi_attribute fw gamezone_guid 0 63 false 1

  unfoldable pub issupportgsync_show : M F ℕ
  unfolding show_simple_wmi_attribute
  issupportgsync_show = show_simple_wmi_attribute fw gamezone_guid 0 40 false 1

  unfoldable pub winkey_show : M F ℕ
  unfolding show_simple_wmi_attribute
  winkey_show = show_simple_wmi_attribute fw gamezone_guid 0 23 true 1

  unfoldable pub winkey_store : Result ℕ → M F (Unit {0})
  unfolding store_simple_wmi_attribute
  winkey_store parsed = store_simple_wmi_attribute fw gamezone_guid 0 22 true (pos 1) parsed

  unfoldable pub touchpad_show : M F ℕ
  unfolding show_simple_wmi_attribute
  touchpad_show = show_simple_wmi_attribute fw gamezone_guid 0 26 true 1

  unfoldable pub touchpad_store : Result ℕ → M F (Unit {0})
  unfolding store_simple_wmi_attribute
  touchpad_store parsed = store_simple_wmi_attribute fw gamezone_guid 0 25 true (pos 1) parsed

  unfoldable pub gsync_show : M F ℕ
  unfolding show_simple_wmi_attribute
  gsync_show = show_simple_wmi_attribute fw gamezone_guid 0 41 true 1

  unfoldable pub gsync_store : Result ℕ → M F (Unit {0})
  unfolding store_simple_wmi_attribute
  gsync_store parsed = store_simple_wmi_attribute fw gamezone_guid 0 42 true (pos 1) parsed

  unfoldable pub overdrive_show : M F ℕ
  unfolding show_simple_wmi_attribute
  overdrive_show = show_simple_wmi_attribute fw gamezone_guid 0 50 false 1

  unfoldable pub overdrive_store : Result ℕ → M F (Unit {0})
  unfolding store_simple_wmi_attribute
  overdrive_store parsed = store_simple_wmi_attribute fw gamezone_guid 0 51 false (pos 1) parsed

  unfoldable pub igpumode_show : M F ℕ
  unfolding show_simple_wmi_attribute
  igpumode_show = show_simple_wmi_attribute fw gamezone_guid 0 64 false 1

  unfoldable pub igpumode_store : Result ℕ → M F (Unit {0})
  unfolding store_simple_wmi_attribute
  igpumode_store parsed = store_simple_wmi_attribute fw gamezone_guid 0 65 false (pos 1) parsed

  unfoldable pub notify_dgpu_store : Result ℕ → M F (Unit {0})
  unfolding store_simple_wmi_attribute
  notify_dgpu_store parsed = store_simple_wmi_attribute fw gamezone_guid 0 66 false (pos 1) parsed

  unfoldable pub fan_maxspeed_show : M F ℕ
  unfolding show_simple_wmi_attribute
  fan_maxspeed_show = show_simple_wmi_attribute fw fan_method_guid 0 3 false 1

  unfoldable pub fan_maxspeed_store : Result ℕ → M F (Unit {0})
  unfolding store_simple_wmi_attribute
  fan_maxspeed_store parsed = store_simple_wmi_attribute fw fan_method_guid 0 4 false (pos 1) parsed

  unfoldable pub cpu_oc_show : M F ℕ
  unfolding show_simple_wmi_attribute_from_buffer
  cpu_oc_show = show_simple_wmi_attribute_from_buffer fw cpu_method_guid 0 1 16 0 1

  unfoldable pub cpu_oc_store : Result ℕ → M F (Unit {0})
  unfolding store_simple_wmi_attribute
  cpu_oc_store parsed = store_simple_wmi_attribute fw cpu_method_guid 0 2 false (pos 1) parsed
