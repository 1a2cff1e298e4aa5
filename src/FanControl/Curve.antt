-- ===== src/FanControl/Curve.antt =====
-- `read_fancurve` and `write_fancurve`: the model's access method, and the cache of the last curve.
pub mod Cache
pub mod Fallback
use sc_control.Base.{Bool, true, false, if◌then◌else◌, ℕ}
use sc_control.Errno.{Result, ok, err, einval}
use sc_control.Ec.{Ram}
use sc_control.Model.Config.{
  ModelConfig, AccessMethod, no_access, ec, acpi, wmi, wmi2, wmi3, wmi3_clamped, ec2, ec3, ec4,
}
use sc_control.Firmware.State.{Firmware, State, M, fail}
use sc_control.FanCurve.{FanCurve}
use sc_control.FanCurve.Layout.Legion.{ec_read_fancurve_legion, ec_write_fancurve_legion}
use sc_control.FanCurve.Layout.Ideapad.{ec_read_fancurve_ideapad, ec_write_fancurve_ideapad}
use sc_control.FanCurve.Layout.Loq.{ec_read_fancurve_loq, ec_write_fancurve_loq}
use sc_control.FanCurve.Layout.Legion2024.{
  ec_read_fancurve_legion2024, ec_write_fancurve_legion2024,
}
use sc_control.FanControl.FullSpeed.{from_ram, on_ram}
use sc_control.FanControl.WmiTable.{wmi_read_fancurve_custom, wmi_write_fancurve_custom}

-- The methods that have a fan curve.
abbrev pub has_curve_method : AccessMethod → Bool
has_curve_method ec = true
has_curve_method ec2 = true
has_curve_method ec3 = true
has_curve_method ec4 = true
has_curve_method wmi3 = true
has_curve_method _ = false

-- The end of a successful access: the curve is remembered.
abbrev pub remember_curve : {F : Type 0} → FanCurve → State F → State F
remember_curve c s = record s { fancurve = c; fancurve_valid = true }

-- The end of `read_fancurve`: a curve read is remembered, and a failed read is answered by the curve
-- remembered, if there is one.
unfoldable pub or_cached : {F : Type 0} → Result FanCurve × State F → Result FanCurve × State F
or_cached (ok c, s) = (ok c, remember_curve c s)
or_cached (err e, s) = (if s.fancurve_valid then ok s.fancurve else err e, s)

-- The end of `write_fancurve`.
unfoldable pub if_written :
    {F : Type 0} → FanCurve → Result (Unit {0}) × State F → Result (Unit {0}) × State F
if_written c (ok _, s) = (ok tt, remember_curve c s)
if_written c (err e, s) = (err e, s)

module _ {F : Type 0} (fw : Firmware F) (ro : Bool) (conf : ModelConfig) where
  -- The access of `read_fancurve`, from what the caller's structure held before.
  unfoldable pub read_by : AccessMethod → FanCurve → M F FanCurve
  read_by ec before = from_ram λ ram. ok (ec_read_fancurve_legion ram conf.registers before)
  read_by ec2 before = from_ram λ ram. ok (ec_read_fancurve_ideapad ram conf.registers before)
  read_by ec3 before = from_ram λ ram. ok (ec_read_fancurve_loq ram conf)
  read_by ec4 before = from_ram λ ram. ok (ec_read_fancurve_legion2024 ram before)
  read_by wmi3 before = wmi_read_fancurve_custom fw conf
  read_by _ before = fail einval

  -- `read_fancurve`: without an access method it returns before the cache is looked at.
  unfoldable pub read_fancurve : FanCurve → M F FanCurve
  read_fancurve before s =
      if has_curve_method conf.access_method_fancurve
      then or_cached (read_by conf.access_method_fancurve before s)
      else (err einval, s)

  -- The access of `write_fancurve`.
  unfoldable pub write_by : AccessMethod → FanCurve → Bool → M F (Unit {0})
  write_by ec c write_size =
      on_ram λ ram. ec_write_fancurve_legion ro ram conf.registers c write_size
  write_by ec2 c write_size = on_ram λ ram. ec_write_fancurve_ideapad ro ram conf.registers c
  write_by ec3 c write_size = on_ram λ ram. ec_write_fancurve_loq ro ram conf.registers c
  write_by ec4 c write_size = on_ram λ ram. ec_write_fancurve_legion2024 ro ram c
  write_by wmi3 c write_size = wmi_write_fancurve_custom fw conf c
  write_by _ c write_size = fail einval

  -- `write_fancurve`
  unfoldable pub write_fancurve : FanCurve → Bool → M F (Unit {0})
  write_fancurve c write_size s =
      if has_curve_method conf.access_method_fancurve
      then if_written c (write_by conf.access_method_fancurve c write_size s)
      else (err einval, s)
