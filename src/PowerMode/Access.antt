-- ===== src/PowerMode/Access.antt =====
-- Reading, writing and toggling the power mode by the model's access method.
use sc_control.Base.{
  ℕ, ◌==◌, Bool, String, [], ◌∷◌, if◌then◌else◌, ℤ, pos, negsuc, signed32, unsigned32, byte_of, u8,
  u32,
}
use sc_control.Errno.{ok, err, einval}
use sc_control.Ec.{ecram_read, ecram_write}
use sc_control.Model.Config.{ModelConfig, AccessMethod, ec, acpi, wmi}
use sc_control.Firmware.State.{Firmware, State, M, pure, fail, ◌>>=◌}
use sc_control.Firmware.Wmi.{wmi_exec_noarg_int, wmi_exec_arg}
use sc_control.Firmware.Acpi.{eval_spmo}
use sc_control.PowerMode.Codes.{
  is_ec_powermode, is_wmi_powermode, ec_to_wmi_powermode, wmi_to_ec_powermode,
}

abbrev pub gamezone_guid : String
gamezone_guid = "887B54E3-DDDC-4B2C-8B88-68A26A8835D0"

-- The mode that `toggle_powermode` switches to for a moment.
abbrev pub other_mode : ℤ → ℤ
other_mode (pos n) = if n == 0 then pos 1 else pos 0
other_mode (negsuc n) = pos 0

module _ {F : Type 0} (fw : Firmware F) (ro : Bool) (conf : ModelConfig) where
  -- `ec_read_powermode`
  ec_read_powermode : M F ℕ
  ec_read_powermode s = (ok (ecram_read s.ram conf.registers.ext_powermode), s)

  -- `ec_write_powermode`
  ec_write_powermode : ℕ → M F (Unit {0})
  ec_write_powermode value s =
      if is_ec_powermode value
      then (ok tt, record s { ram = ecram_write ro s.ram conf.registers.ext_powermode value })
      else (err einval, s)

  -- `acpi_read_powermode`
  acpi_read_powermode : M F ℤ
  unfolding eval_spmo
  acpi_read_powermode = do v ← eval_spmo fw conf; pure (signed32 (u32 v))

  -- `wmi_read_powermode`
  wmi_read_powermode : M F ℤ
  unfolding wmi_exec_noarg_int
  wmi_read_powermode = do v ← wmi_exec_noarg_int fw gamezone_guid 0 45; pure (signed32 (u32 v))

  -- `wmi_write_powermode`: the value has been converted to a byte.
  wmi_write_powermode : ℕ → M F (Unit {0})
  unfolding wmi_exec_arg
  wmi_write_powermode value =
      if is_wmi_powermode value
      then wmi_exec_arg fw gamezone_guid 0 44 (value ∷ [])
      else fail einval

  read_powermode_by : AccessMethod → M F ℤ
  unfolding ec_read_powermode acpi_read_powermode wmi_read_powermode
  read_powermode_by ec = do m ← ec_read_powermode; pure (pos (ec_to_wmi_powermode m))
  read_powermode_by acpi = acpi_read_powermode
  read_powermode_by wmi = wmi_read_powermode
  read_powermode_by _ = fail einval

  -- `read_powermode`
  unfoldable pub read_powermode : M F ℤ
  unfolding read_powermode_by
  read_powermode = read_powermode_by conf.access_method_powermode

  write_powermode_by : AccessMethod → ℤ → M F (Unit {0})
  unfolding ec_write_powermode wmi_write_powermode
  write_powermode_by ec value = ec_write_powermode (u8 (wmi_to_ec_powermode (unsigned32 value)))
  write_powermode_by wmi value = wmi_write_powermode (byte_of value)
  write_powermode_by _ value = fail einval

  -- `write_powermode`: the mode is an enumeration of 32 bits.
  unfoldable pub write_powermode : ℤ → M F (Unit {0})
  unfolding write_powermode_by
  write_powermode value = write_powermode_by conf.access_method_powermode value

  -- `toggle_powermode`: the results of the writes are not looked at, and the delay between them does
  -- not change the state.
  unfoldable pub toggle_powermode : State F → State F
  toggle_powermode s =
      let (r, t) = read_powermode s in
      elim r [
        | err e ↦ t
        | ok old ↦
            let between = (write_powermode (other_mode old) t).1 in (write_powermode old between).1
      ]
