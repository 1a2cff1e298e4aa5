-- ===== src/Samples/Stores.antt =====
-- The theorems on reading, writing and storing a fan curve, applied to the sample state.
use sc_control.Base.{
  ℕ, ◌≤◌, ◌≡◌, refl, ◌⊎◌, true, false, not, ◌&&◌, ltb, ℤ, pos, arith, List, [], ◌∷◌,
}
use sc_control.Errno.{ok, err, Errno}
use sc_control.Model.Configs.{model_v0, model_n2cn}
use sc_control.Firmware.State.{State}
use sc_control.FanCurve.{
  FanCurve, IsCurve, FanCurvePoint, fancurve_point_zero, point_at, percent_nearest,
}
use sc_control.FanControl.WmiTable.{
  wmi_read_fancurve_custom, wmi_write_fancurve_custom, send_table, parse_table, compare, put_speeds,
  parse_answer, verified,
}
use sc_control.FanControl.WmiTable.Laws.{wmi_read-IsTableCurve, n2cn_write_verified}
use sc_control.FanControl.Curve.{
  read_fancurve, write_fancurve, read_by, if_written, or_cached, write_by,
}
use sc_control.FanControl.Curve.Cache.{IsState}
use sc_control.FanControl.Curve.Fallback.{read_fancurve_remembers, write_fancurve_remembers}
use sc_control.FanControl.Autopoint.{
  attr_accel, autopoint_show, autopoint_store, is_pwm1, after_read, write_edited, set_attr,
  or_unsupported, store_value,
}
use sc_control.FanControl.Autopoint.Success.{Edited, autopoint_store_success}
use sc_control.FanControl.Autopoint.StoreShow.{autopoint_store_show}
use sc_control.FanControl.Reachable.{store, start, next, Reachable-IsState}
use sc_control.FanControl.FullSpeed.{when_ok}
use sc_control.FanControl.Switches.{fan_control_write_allowed}
use sc_control.FanCurve.Setters.{fancurve_set_accel}
use sc_control.Ec.Writes.{distinct}
use sc_control.FanCurve.Layout.Legion.RoundTrip.{legion_addresses}
use sc_control.Firmware.Wmi.{wmi_exec_arg, wmi_exec_ints}
use sc_control.Samples.{
  sample_curve, sample_curve-IsMemory, sample_firmware, sample_state, sample_state-IsState,
}

-- The state after a store of the acceleration 5 to point 1.
abbrev stored : State (List ℕ)
stored =
    (autopoint_store sample_firmware false model_v0 sample_curve attr_accel 1 (ok (pos 5))
      sample_state).1

store_succeeds :
    (autopoint_store sample_firmware false model_v0 sample_curve attr_accel 1
      (ok (pos 5))
      sample_state).0
    ≡ ok tt
unfolding autopoint_store store_value when_ok fan_control_write_allowed after_read read_fancurve
    or_cached read_by write_edited set_attr fancurve_set_accel or_unsupported write_fancurve
    if_written write_by
store_succeeds = refl

autopoint_store_show_example :
    (autopoint_show sample_firmware false model_v0 sample_curve attr_accel 1 stored).0 ≡ ok 5
unfolding distinct legion_addresses
autopoint_store_show_example =
    autopoint_store_show sample_firmware model_v0 sample_curve sample_curve attr_accel 1 5
      sample_state refl refl refl refl sample_state-IsState sample_curve-IsMemory (omega arith)
      store_succeeds

autopoint_store_success_example :
    ((model_v0.wmi_fancurve_speed_only && not (is_pwm1 attr_accel)) ≡ false)
    × (ltb 1 10 ≡ true)
    × ((value : ℤ) × (ok (pos 5) ≡ ok value)
        × Edited sample_firmware false model_v0 sample_curve attr_accel 1 value sample_state stored)
autopoint_store_success_example =
    autopoint_store_success sample_firmware false model_v0 sample_curve attr_accel 1 (ok (pos 5))
      sample_state store_succeeds

Reachable-IsState_example : IsState stored
Reachable-IsState_example =
    Reachable-IsState sample_firmware false model_v0 (omega arith) sample_state-IsState (
      next (start sample_state)
        (store sample_curve attr_accel 1 (ok (pos 5)) sample_state sample_curve-IsMemory))

read_fancurve_remembers_example :
    let (r, t) = read_fancurve sample_firmware false model_v0 sample_curve sample_state in
    ((c : FanCurve) × (r ≡ ok c) × (t.fancurve ≡ c) × (t.fancurve_valid ≡ true))
    ⊎ ((e : Errno) × (r ≡ err e) × (true ≡ false))
read_fancurve_remembers_example =
    read_fancurve_remembers sample_firmware false model_v0 sample_curve sample_state refl

write_fancurve_remembers_example :
    let (r, t) = write_fancurve sample_firmware false model_n2cn sample_curve true sample_state in
    ((r ≡ ok tt) × (t.fancurve ≡ sample_curve) × (t.fancurve_valid ≡ true))
    ⊎ ((e : Errno) × (r ≡ err e) × (t.fancurve ≡ sample_curve) × (t.fancurve_valid ≡ true))
write_fancurve_remembers_example =
    write_fancurve_remembers sample_firmware false model_n2cn sample_curve true sample_state

-- The state after the table of the sample curve was sent.
abbrev sent : State (List ℕ)
sent = (send_table sample_firmware model_n2cn sample_curve sample_state).1

n2cn_write_verified_example :
    ((send_table sample_firmware model_n2cn sample_curve sample_state).0 ≡ ok tt)
    × ((d : FanCurve) × ((wmi_read_fancurve_custom sample_firmware model_n2cn sent).0 ≡ ok d)
        × ((point_at d 4).speed1 ≡ 20))
unfolding wmi_write_fancurve_custom verified send_table wmi_exec_arg compare
    wmi_read_fancurve_custom parse_answer wmi_exec_ints parse_table put_speeds
n2cn_write_verified_example =
    n2cn_write_verified sample_firmware model_n2cn sample_state sample_curve 4 (omega arith) refl
      refl

abbrev sent_point : FanCurvePoint
sent_point = record fancurve_point_zero { speed1 = 20 }

abbrev sent_points : List FanCurvePoint
sent_points =
    sent_point ∷ sent_point ∷ sent_point ∷ sent_point ∷ sent_point ∷ sent_point ∷ sent_point
    ∷ sent_point ∷ sent_point ∷ sent_point ∷ []

-- The curve of the table that was sent.
abbrev sent_curve : FanCurve
sent_curve = record {
  points = sent_points;
  fan_speed_unit = percent_nearest;
  max_rpm = 0;
  size = 10;
  current_point_i = 0;
}

wmi_read-IsTableCurve_example : IsCurve sent_curve × (1 ≤ 10)
unfolding send_table wmi_read_fancurve_custom parse_answer wmi_exec_ints parse_table wmi_exec_arg
    put_speeds
wmi_read-IsTableCurve_example =
    wmi_read-IsTableCurve sample_firmware model_n2cn sent sent_curve refl
