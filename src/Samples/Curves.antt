-- ===== src/Samples/Curves.antt =====
-- The theorems on the layouts and units of a fan curve, applied to the sample curve.
use sc_control.Base.{pos, ◌≡◌, refl, true, false, [], ◌∷◌, ◌++◌, arith, min}
use mathlib.Core.List.Memᴰ.{head}
use sc_control.Ec.{ecram_read}
use sc_control.Ec.Writes.{distinct, avoids}
use sc_control.Model.Configs.{model_v0, model_9vcn, model_secn}
use sc_control.Model.Allowlist.{sys_vendor, bios_version, DmiEntry}
use sc_control.FanCurve.{rpm_hundred, point_at, set_point}
use sc_control.FanCurve.Speed.{
  decode_speed, set_speed, fancurve_set_speed_pwm, fancurve_get_speed_pwm,
}
use sc_control.FanCurve.Speed.Restore.{shown_speed_restores}
use sc_control.FanCurve.Setters.{fancurve_set_size}
use sc_control.FanCurve.Size.{set_size_keeps_size}
use sc_control.FanCurve.Layout.{loop_points}
use sc_control.FanCurve.Layout.Legion.{
  written_point, ec_read_fancurve_legion, ec_write_fancurve_legion,
}
use sc_control.FanCurve.Layout.Legion.RoundTrip.{legion_addresses, legion_round_trip}
use sc_control.FanCurve.Layout.Ideapad.{ec_read_fancurve_ideapad, ec_write_fancurve_ideapad}
use sc_control.FanCurve.Layout.Ideapad.RoundTrip.{ideapad_addresses, ideapad_round_trip, kept_point}
use sc_control.FanCurve.Layout.Legion2024.{
  ec_read_fancurve_legion2024, ec_write_fancurve_legion2024, legion2024_round_trip,
  kept_point as kept_2024,
}
use sc_control.FanCurve.Layout.Loq.{loq_cmdr_addr, ec_write_fancurve_loq}
use sc_control.FanCurve.Layout.Loq.Effect.{loq_addresses, HoldsPoint, with_bit4, loq_write_lem}
use sc_control.FanCurve.Layout.Allowlisted.{allowlisted_legion_round_trip}
use sc_control.Firmware.Raises.{refused}
use sc_control.Sensors.Show.{sensor_show, sensor_fan2_rpm}
use sc_control.Visible.Sensors.{legion_hwmon_sensor_is_visible}
use sc_control.Visible.Answers.{visible_sensor_answers}
use sc_control.Samples.{
  sample_curve, sample_curve-IsCurve, sample_ram, sample_firmware, sample_state,
}

legion_round_trip_example :
    ec_read_fancurve_legion
      (ec_write_fancurve_legion false sample_ram model_v0.registers sample_curve true)
      model_v0.registers
      sample_curve
    ≡ record sample_curve {
      points = loop_points (written_point sample_curve) 0 10;
      fan_speed_unit = rpm_hundred;
      size = 7;
      current_point_i = 0;
    }
unfolding distinct avoids legion_addresses
legion_round_trip_example =
    legion_round_trip sample_ram model_v0.registers sample_curve sample_curve true
      sample_curve-IsCurve refl refl

abbrev gkcn : DmiEntry
gkcn = record {
  ident = "GKCN";
  matches = (sys_vendor, "LENOVO") ∷ (bios_version, "GKCN") ∷ [];
  driver_data = model_v0;
}

allowlisted_legion_round_trip_example :
    ec_read_fancurve_legion
      (ec_write_fancurve_legion false sample_ram model_v0.registers sample_curve false)
      model_v0.registers
      sample_curve
    ≡ record sample_curve {
      points = loop_points (written_point sample_curve) 0 10;
      fan_speed_unit = rpm_hundred;
      size = 3;
      current_point_i = 0;
    }
allowlisted_legion_round_trip_example =
    allowlisted_legion_round_trip gkcn sample_ram sample_curve sample_curve false (head refl) refl
      sample_curve-IsCurve

ideapad_round_trip_example :
    let after = ec_write_fancurve_ideapad false sample_ram model_9vcn.registers sample_curve in
    ec_read_fancurve_ideapad after model_9vcn.registers sample_curve ≡ record sample_curve {
      points =
          loop_points (λ i. kept_point (point_at sample_curve i)) 0 8
          ++ (point_at sample_curve 8 ∷ point_at sample_curve 9 ∷ []);
      fan_speed_unit = rpm_hundred;
      size = 8;
      current_point_i = min (ecram_read after model_9vcn.registers.ext_fan_cur_point) 8;
    }
unfolding distinct avoids ideapad_addresses
ideapad_round_trip_example =
    ideapad_round_trip sample_ram model_9vcn.registers sample_curve sample_curve
      sample_curve-IsCurve refl

legion2024_round_trip_example :
    ec_read_fancurve_legion2024
      (ec_write_fancurve_legion2024 false sample_ram sample_curve)
      sample_curve
    ≡ record sample_curve {
      points = loop_points (λ i. kept_2024 (point_at sample_curve i)) 0 10;
      fan_speed_unit = rpm_hundred;
      size = 10;
      current_point_i = 0;
    }
legion2024_round_trip_example =
    legion2024_round_trip sample_ram sample_curve sample_curve sample_curve-IsCurve

loq_write_lem_example :
    let after = ec_write_fancurve_loq false sample_ram model_secn.registers sample_curve in
    HoldsPoint after model_secn.registers 9 (point_at sample_curve 9)
    × (ecram_read after loq_cmdr_addr ≡ with_bit4 3)
    × (ecram_read after 0xc400 ≡ 3)
unfolding distinct avoids loq_addresses
loq_write_lem_example =
    loq_write_lem sample_ram model_secn.registers sample_curve 9 0xc400 refl (omega arith)
      (omega arith) refl

shown_speed_restores_example :
    fancurve_set_speed_pwm
      (set_point sample_curve 3 (set_speed (point_at sample_curve 3) 0 99))
      3
      0
      (pos 51)
    ≡ (sample_curve, true)
unfolding fancurve_get_speed_pwm decode_speed
shown_speed_restores_example =
    shown_speed_restores sample_curve 3 0 99 51 sample_curve-IsCurve refl (omega arith) refl

set_size_keeps_size_example : (fancurve_set_size sample_curve (pos 9) true).0.size ≡ 7
set_size_keeps_size_example = set_size_keeps_size sample_curve (pos 9) true

visible_sensor_answers_example :
    refused (sensor_show sample_firmware model_v0 sensor_fan2_rpm sample_state).0 ≡ false
unfolding legion_hwmon_sensor_is_visible
visible_sensor_answers_example =
    visible_sensor_answers sample_firmware gkcn sensor_fan2_rpm sample_state (head refl) refl refl
