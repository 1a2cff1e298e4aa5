-- ===== src/Attributes/Simple.antt =====
-- The common part of the attributes that are one WMI value: `show_simple_wmi_attribute`,
-- `show_simple_wmi_attribute_from_buffer` and `store_simple_wmi_attribute`.
use sc_control.Base.{ℕ, ◌*◌, ◌%◌, ◌^◌, ltb, Bool, String, ℤ, if◌then◌else◌, signed32}
use sc_control.Errno.{Result, ok, err, einval}
use sc_control.Firmware.State.{Firmware, M, pure, fail, ◌>>=◌}
use sc_control.Firmware.Wmi.{wmi_exec_noarg_int_or_buffer}
use sc_control.Firmware.Simple.{get_simple_wmi_attribute, set_simple_wmi_attribute}

module _ {F : Type 0} (fw : Firmware F) where
  -- `show_simple_wmi_attribute`: the number that it prints
  unfoldable pub show_simple_wmi_attribute : String → ℕ → ℕ → Bool → ℕ → M F ℕ
  unfolding get_simple_wmi_attribute
  show_simple_wmi_attribute guid instance_id method invert scale =
      get_simple_wmi_attribute fw guid instance_id method invert scale

  -- `show_simple_wmi_attribute_from_buffer`, for a scale that is not negative
  unfoldable pub show_simple_wmi_attribute_from_buffer : String → ℕ → ℕ → ℕ → ℕ → ℕ → M F ℕ
  unfolding wmi_exec_noarg_int_or_buffer
  show_simple_wmi_attribute_from_buffer guid instance_id method ressize i scale =
      if ltb i ressize
      then (do
        value ← wmi_exec_noarg_int_or_buffer fw guid instance_id method ressize i
        pure (scale * value % 2 ^ 64))
      else fail einval

  -- `store_simple_wmi_attribute`: the unsigned number is kept in an int.
  unfoldable pub store_simple_wmi_attribute : String → ℕ → ℕ → Bool → ℤ → Result ℕ → M F (Unit {0})
  unfolding set_simple_wmi_attribute
  store_simple_wmi_attribute guid instance_id method invert scale (err e) = fail e
  store_simple_wmi_attribute guid instance_id method invert scale (ok word) =
      set_simple_wmi_attribute fw guid instance_id method invert scale (signed32 word)
