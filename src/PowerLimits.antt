-- ===== src/PowerLimits.antt =====
-- The limits of power and temperature of the CPU and the GPU: by the "other method" interface, with or
-- without clamping to the capability data, and else by the CPU's and the GPU's own interfaces.
pub mod Feature
pub mod Cpu
pub mod Gpu
pub mod Coupling
pub mod Kept
pub mod Ordered
use sc_control.Base.{ℕ, List, String, ℤ, pos}
use sc_control.Errno.{Result, ok, err, einval}
use sc_control.Capdata.{Capdata01, DiscreteFeature, clamped_value}
use sc_control.Firmware.State.{Firmware, State, M, pure, fail, or_code, ◌>>=◌}
use sc_control.Firmware.Other.{wmi_other_method_get_value, wmi_other_method_set_value}

-- What the kernel's parsing makes of a text: `kstrtouint` and `kstrtoint` with the base of its prefix,
-- and `kstrtoint` with base 10.
pub record Parsed : Type 0 where
  pub as_unsigned : Result ℕ
  pub as_int : Result ℤ
  pub as_decimal : Result ℤ

-- A number that is printed as unsigned.
abbrev pub printed : {F : Type 0} → M F ℕ → M F ℤ
printed m = do v ← m; pure (pos v)

abbrev pub gpu_method_guid : String
gpu_method_guid = "da7547f1-824d-405f-be79-d9903e29ced7"

module _ {F : Type 0} (fw : Firmware F) where
  -- `wmi_common_method_other_show`
  unfoldable pub wmi_common_method_other_show : ℕ → M F ℤ
  wmi_common_method_other_show feature_id =
      or_code (wmi_other_method_get_value fw feature_id) einval

  -- `wmi_common_method_other_store`
  unfoldable pub wmi_common_method_other_store : ℕ → Result ℤ → M F (Unit {0})
  wmi_common_method_other_store feature_id (err e) = fail e
  wmi_common_method_other_store feature_id (ok value) = do
    _ ← or_code (wmi_other_method_set_value fw feature_id value) einval
    pure tt

  module _ (round : ℤ → ℕ → ℕ) (capdata : List Capdata01) (features : List DiscreteFeature) where
    -- `clamped_value` on the state
    abbrev pub clamped : ℕ → Parsed → State F → Result ℤ
    clamped feature text s =
        clamped_value round capdata features s.current_powermode feature text.as_decimal

    -- `wmi_clamped_store`: the value is printed and parsed again, which gives the same.
    unfoldable pub wmi_clamped_store : ℕ → Parsed → M F (Unit {0})
    wmi_clamped_store feature text s =
        wmi_common_method_other_store feature (clamped feature text s) s
