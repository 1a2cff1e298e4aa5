-- ===== src/Attributes/Fans.antt =====
-- The attributes of the fans that are not points of the curve: the lock of the controller, the unlock of
-- the fan ceiling, the mini fan curve, the full speed as shown, the default curves and the power mode.
use sc_control.Base.{ℕ, Bool, true, false, not, ◌==◌, if◌then◌else◌, [], ◌∷◌, ℤ, pos, negsuc}
use sc_control.Errno.{Result, ok, err, eperm, einval, eio}
use sc_control.Model.Config.{ModelConfig}
use sc_control.Firmware.State.{Firmware, State, M, fail, or_code}
use sc_control.Firmware.Wmi.{wmi_exec_arg}
use sc_control.PowerMode.Access.{gamezone_guid, read_powermode}
use sc_control.PowerMode.Codes.{is_wmi_powermode}
use sc_control.FanControl.Switches.{
  ec_read_minifancurve, ec_write_minifancurve, ec_read_lockfancontroller,
  ec_write_lockfancontroller,
}
use sc_control.FanControl.FullSpeed.{from_ram, on_ram, read_fanfullspeed}
use sc_control.FanControl.WmiTable.{wmi_write_fancurve_defaults}

-- Is an int one of the modes?
abbrev is_mode : ℤ → Bool
is_mode (pos n) = is_wmi_powermode n
is_mode (negsuc n) = false

abbrev is_custom : ℤ → Bool
is_custom (pos n) = n == 255
is_custom (negsuc n) = false

abbrev is_nonzero : ℤ → Bool
is_nonzero (pos n) = not (n == 0)
is_nonzero (negsuc n) = true

module _ {F : Type 0} (fw : Firmware F) (ro : Bool) (conf : ModelConfig) where
  -- `lockfancontroller_show`
  unfoldable pub lockfancontroller_show : M F Bool
  lockfancontroller_show = or_code (from_ram λ ram. ec_read_lockfancontroller ram conf) einval

  -- `lockfancontroller_store`: the write itself never fails.
  unfoldable pub lockfancontroller_store : Result Bool → M F (Unit {0})
  lockfancontroller_store (err e) = fail e
  lockfancontroller_store (ok lock) = on_ram λ ram. ec_write_lockfancontroller ro ram conf lock

  -- `fan_unlock_show`
  unfoldable pub fan_unlock_show : M F ℕ
  fan_unlock_show s = (ok s.fan_unlock_state, s)

  -- The end of the store: the state is remembered only if the firmware took it.
  unfoldable pub remember_unlock : ℕ → Result (Unit {0}) × State F → Result (Unit {0}) × State F
  remember_unlock arg (ok _, t) = (ok tt, record t { fan_unlock_state = arg })
  remember_unlock arg (err _, t) = (err eio, t)

  -- `fan_unlock_store`
  unfoldable pub fan_unlock_store : Result Bool → M F (Unit {0})
  unfolding remember_unlock
  fan_unlock_store (err e) s = (err e, s)
  fan_unlock_store (ok enable) s =
      let arg = if enable then 1 else 0 in
      remember_unlock arg (wmi_exec_arg fw gamezone_guid 0 13 (arg ∷ []) s)

  -- `fan_fullspeed_show`
  unfoldable pub fan_fullspeed_show : M F Bool
  fan_fullspeed_show = or_code (read_fanfullspeed fw ro conf) einval

  -- `minifancurve_show`
  unfoldable pub minifancurve_show : M F Bool
  minifancurve_show = or_code (from_ram λ ram. ec_read_minifancurve ram conf) eio

  -- `minifancurve_store`
  unfoldable pub minifancurve_store : Result ℤ → M F (Unit {0})
  minifancurve_store (err _) = fail eperm
  minifancurve_store (ok value) = on_ram λ ram. ec_write_minifancurve ro ram conf (is_nonzero value)

  -- The end of the store of the default curves.
  unfoldable pub remember_defaults : ℤ → Result (Unit {0}) × State F → Result (Unit {0}) × State F
  remember_defaults value (ok _, t) = (ok tt, record t { fancurve_defaults_powermode = value })
  remember_defaults value (err _, t) = (err eperm, t)

  -- `fancurve_defaults_powermode_store`
  unfoldable pub fancurve_defaults_powermode_store : Result ℤ → M F (Unit {0})
  unfolding remember_defaults
  fancurve_defaults_powermode_store (err _) s = (err eperm, s)
  fancurve_defaults_powermode_store (ok value) s =
      if is_mode value
      then remember_defaults value (wmi_write_fancurve_defaults fw conf value s)
      else (err eperm, s)

  -- What `read_powermode` leaves in the caller's variable, which held `before`.
  unfoldable pub assigned : {A : Type 0} → A → Result A × State F → A × State F
  assigned before (ok v, t) = (v, t)
  assigned before (err _, t) = (before, t)

  -- `fancurve_defaults_powermode_show`: `before` is what the variable held before it was assigned.
  unfoldable pub fancurve_defaults_powermode_show : ℤ → M F ℤ
  unfolding assigned
  fancurve_defaults_powermode_show before s =
      let (mode, t) = assigned before (read_powermode fw ro conf s) in
      let defaults = if is_custom mode then t.fancurve_defaults_powermode else pos 0 in
      (ok defaults, record t { fancurve_defaults_powermode = defaults })

  -- `powermode_show`, which does not look at the result of the read.
  unfoldable pub powermode_show : ℤ → M F ℤ
  unfolding assigned
  powermode_show before s =
      let (mode, t) = assigned before (read_powermode fw ro conf s) in (ok mode, t)
