-- ===== src/Samples/Modes.antt =====
-- The theorems on the power mode and on the switches, applied to the sample state.
use sc_control.Base.{ℕ, ◌/◌, ◌≡◌, refl, ◌⊎◌, true, false, pos, signed32, arith}
use sc_control.Errno.{ok, err, Errno}
use sc_control.Ec.{ecram_read}
use sc_control.Model.Configs.{model_v0, model_khcn, model_secn}
use sc_control.PowerMode.Codes.{
  ec_to_wmi_powermode, wmi_to_ec_powermode, ec_to_wmi-wmi_to_ec, is_wmi_powermode,
}
use sc_control.PowerMode.Access.{read_powermode, write_powermode, toggle_powermode}
use sc_control.PowerMode.Store.{
  powermode_store, custom, mode_of, legion_platform_profile_get, legion_platform_profile_set,
}
use sc_control.PowerMode.ProfileLaws.{platform_profile_round_trip}
use sc_control.PowerMode.Laws.{
  ec_powermode_round_trip, toggle_powermode_wmi, powermode_store_lem, powermode_store_truncates,
}
use sc_control.FanControl.Switches.{
  ec4_fanfullspeed_reg, ec_read_fanfullspeed_legion2024, ec_write_fanfullspeed_legion2024,
  fanfullspeed_legion2024_round_trip, fan_control_write_allowed,
}
use sc_control.FanControl.FullSpeed.{
  fan_fullspeed_store, fan_fullspeed_store_safe, fanfullspeed_write_allowed, custom_guard,
  write_fanfullspeed, when_ok,
}
use sc_control.Firmware.Other.{wmi_other_method_set_value}
use sc_control.Samples.{sample_firmware, sample_state, sample_ram}

ec_to_wmi-wmi_to_ec_example : ec_to_wmi_powermode (wmi_to_ec_powermode 3) ≡ 3
unfolding is_wmi_powermode
ec_to_wmi-wmi_to_ec_example = ec_to_wmi-wmi_to_ec 3

ec_powermode_round_trip_example :
    let (r, t) = write_powermode sample_firmware false model_khcn (pos 3) sample_state in
    (r ≡ ok tt) × ((read_powermode sample_firmware false model_khcn t).0 ≡ ok (pos 3))
unfolding is_wmi_powermode
ec_powermode_round_trip_example =
    ec_powermode_round_trip sample_firmware false model_khcn sample_state 3 refl refl (omega arith)

toggle_powermode_wmi_example :
    toggle_powermode sample_firmware false model_v0 sample_state
    ≡ (write_powermode sample_firmware false model_v0
        (pos 255)
        (read_powermode sample_firmware false model_v0 sample_state).1).1
unfolding read_powermode
toggle_powermode_wmi_example =
    toggle_powermode_wmi sample_firmware false model_v0 sample_state (pos 255) refl refl
      (ground arith)

powermode_store_lem_example :
    let (r, t) = powermode_store sample_firmware false model_v0 (ok 3) sample_state in
    ((r ≡ ok tt) × ((w : ℕ) × (ok 3 ≡ ok w) × (t.current_powermode ≡ signed32 w)))
    ⊎ ((e : Errno) × (r ≡ err e) × (t.current_powermode ≡ pos 2))
powermode_store_lem_example = powermode_store_lem sample_firmware false model_v0 sample_state (ok 3)

powermode_store_truncates_example :
    let (r, t) = powermode_store sample_firmware false model_v0 (ok 258) sample_state in
    (r ≡ ok tt)
    × (t.firmware ≡ (powermode_store sample_firmware false model_v0 (ok 2) sample_state).1.firmware)
    × (t.current_powermode ≡ pos 258)
unfolding powermode_store write_powermode is_wmi_powermode
powermode_store_truncates_example =
    powermode_store_truncates sample_firmware false model_v0 sample_state 2 1 refl (omega arith)
      (omega arith) refl

fanfullspeed_legion2024_round_trip_example :
    let after = ec_write_fanfullspeed_legion2024 false sample_ram false in
    (ec_read_fanfullspeed_legion2024 after ≡ ok false)
    × (ecram_read after ec4_fanfullspeed_reg / 2 ≡ 1)
fanfullspeed_legion2024_round_trip_example =
    fanfullspeed_legion2024_round_trip sample_ram false (omega arith)

fan_fullspeed_store_safe_example :
    (fan_control_write_allowed sample_ram model_secn ≡ ok tt)
    × ((read_powermode sample_firmware false model_secn sample_state).0 ≡ ok (pos 255))
unfolding fan_fullspeed_store when_ok fan_control_write_allowed fanfullspeed_write_allowed
    custom_guard read_powermode write_fanfullspeed wmi_other_method_set_value
fan_fullspeed_store_safe_example =
    fan_fullspeed_store_safe sample_firmware false model_secn sample_state 1 refl (omega arith) refl

platform_profile_round_trip_example :
    let (r, t) =
      legion_platform_profile_set sample_firmware false model_khcn true false custom sample_state in
    (r ≡ ok tt)
    × ((legion_platform_profile_get sample_firmware false model_khcn true false (pos 0) t).0
        ≡ ok custom)
unfolding mode_of
platform_profile_round_trip_example =
    platform_profile_round_trip sample_firmware model_khcn true false custom (pos 255) (pos 0)
      sample_state refl refl
