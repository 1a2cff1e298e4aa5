-- ===== src/PowerMode/Store.antt =====
-- The sysfs attribute `powermode` and the platform profile.
use sc_control.Base.{ℕ, ◌==◌, Bool, if◌then◌else◌, ◌&&◌, ℤ, pos, negsuc, signed32}
use sc_control.Errno.{Result, ok, err, einval, eopnotsupp}
use sc_control.Model.Config.{ModelConfig}
use sc_control.Firmware.State.{Firmware, State, M, fail}
use sc_control.PowerMode.Codes.{
  wmi_balanced, wmi_performance, wmi_low_power, wmi_custom, wmi_max_power,
}
use sc_control.PowerMode.Access.{read_powermode, write_powermode}

-- The options of the kernel's platform profile that the driver names, and the rest.
pub data Profile : Type 0 where
  low_power balanced performance custom max_power another : Profile

-- The end of `powermode_store`: einval for any failure, and `current_powermode` set else.
unfoldable pub remember :
    {F : Type 0} → ℤ → Result (Unit {0}) × State F → Result (Unit {0}) × State F
remember v (ok _, s) = (ok tt, record s { current_powermode = v })
remember v (err _, s) = (err einval, s)

-- The profile of a mode, by the kernel's version.
unfoldable pub profile_of : Bool → Bool → ℤ → Result Profile
profile_of since_6_14 since_6_19 (negsuc n) = err einval
profile_of since_6_14 since_6_19 (pos m) =
    if m == wmi_balanced
    then ok balanced
    else if m == wmi_performance
    then ok performance
    else if m == wmi_low_power
    then ok low_power
    else if since_6_14 && m == wmi_custom
    then ok custom
    else if m == wmi_max_power
    then ok (if since_6_19 then max_power else performance)
    else err einval

-- The mode of a profile.
unfoldable pub mode_of : Bool → Bool → Profile → Result ℤ
mode_of since_6_14 since_6_19 balanced = ok (pos wmi_balanced)
mode_of since_6_14 since_6_19 performance = ok (pos wmi_performance)
mode_of since_6_14 since_6_19 low_power = ok (pos wmi_low_power)
mode_of since_6_14 since_6_19 custom = if since_6_14 then ok (pos wmi_custom) else err eopnotsupp
mode_of since_6_14 since_6_19 max_power =
    if since_6_19 then ok (pos wmi_max_power) else err eopnotsupp
mode_of since_6_14 since_6_19 another = err eopnotsupp

-- A variable that only a successful read assigns.
unfoldable pub assigned_or : ℤ → Result ℤ → ℤ
assigned_or before (ok m) = m
assigned_or before (err e) = before

module _ {F : Type 0} (fw : Firmware F) (ro : Bool) (conf : ModelConfig) where
  -- `powermode_store`, from what `kstrtouint` made of the text: 32 bits, read as an int.
  unfoldable pub powermode_store : Result ℕ → M F (Unit {0})
  unfolding remember
  powermode_store (err e) s = (err e, s)
  powermode_store (ok word) s =
      remember (signed32 word) (write_powermode fw ro conf (signed32 word) s)

  -- `legion_platform_profile_get`: a failed read leaves `powermode` as it was, uninitialised.
  unfoldable pub legion_platform_profile_get : Bool → Bool → ℤ → M F Profile
  legion_platform_profile_get since_6_14 since_6_19 uninitialised s =
      let (r, t) = read_powermode fw ro conf s in
      (profile_of since_6_14 since_6_19 (assigned_or uninitialised r), t)

  -- The write of the mode of a profile that the kernel has.
  unfoldable pub write_mode : Result ℤ → M F (Unit {0})
  write_mode (ok mode) = write_powermode fw ro conf mode
  write_mode (err e) = fail e

  -- `legion_platform_profile_set`
  unfoldable pub legion_platform_profile_set : Bool → Bool → Profile → M F (Unit {0})
  legion_platform_profile_set since_6_14 since_6_19 profile =
      write_mode (mode_of since_6_14 since_6_19 profile)
