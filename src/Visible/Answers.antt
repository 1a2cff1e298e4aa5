-- ===== src/Visible/Answers.antt =====
-- The errors with which the sensors that a model shows are refused.
use sc_control.Base.{
  String, List, [], ◌∷◌, ℕ, ◌≡◌, refl, Bool, true, false, if◌then◌else◌, ◌==◌, Option, none, some,
  ℤ, u8,
}
use mathlib.Core.List.{Memᴰ}
use sc_control.Errno.{Result, ok, err, eexist, einval}
use sc_control.Model.Config.{ModelConfig, AccessMethod, ec, acpi, wmi, wmi2, wmi3}
use sc_control.Model.Allowlist.{DmiEntry, optimistic_allowlist}
use sc_control.Firmware.State.{Firmware, State, M, pure, ◌>>=◌}
use sc_control.Firmware.Wmi.{wmi_exec_int, wmi_exec_noarg_int}
use sc_control.Firmware.Acpi.{eval_int}
use sc_control.Firmware.Raises.{
  refused, Known, bind-Known, pure-Known, eval_int-Known, wmi_exec_int-Known,
  wmi_exec_noarg_int-Known, get_value-Known,
}
use sc_control.PowerMode.Access.{gamezone_guid}
use sc_control.FanControl.FullSpeed.{fan_method_guid}
use sc_control.Sensors.{
  long_to_int, one_of_two, with_choice, fanspeed_path, temperature_path, ec_read_fanspeed,
  ec_read_temperature, acpi_read_fanspeed, acpi_read_temperature, wmi_read_fanspeed,
  wmi_read_temperature, wmi_read_fanspeed_gz, wmi_read_temperature_gz, wmi_read_fanspeed_other,
  wmi_read_temperature_other, read_fanspeed_by, read_fanspeed, read_temperature_by,
  read_temperature,
}
use sc_control.Sensors.Show.{
  SensorAttr, sensor_cpu_temp, sensor_gpu_temp, sensor_ic_temp, sensor_fan1_rpm, sensor_fan2_rpm,
  sensor_fan1_target_rpm, sensor_fan2_target_rpm, sensor_fan3_rpm, sensor_fan4_rpm, sensor_other,
  in_millidegrees, sensor_show,
}
use sc_control.Probe.Leds.{is_no_access}
use sc_control.Visible.Readable.{
  is_some, speed_readable, temperature_readable, readable, entry_readable,
}
use sc_control.Visible.Sensors.{legion_hwmon_sensor_is_visible}

module _ {F : Type 0} (fw : Firmware F) (conf : ModelConfig) where
  -- A call with an item that is there.
  with_choice-Known :
      {A B : Type 0} (otherwise : Result B) (o : Option A) (call : A → M F B)
      → is_some o ≡ true
      → ((a : A) → Known (call a))
      → Known (with_choice fw conf otherwise o call)
  unfolding with_choice
  with_choice-Known otherwise (some a) call h k = record { known = (k a).known }
  with_choice-Known otherwise none call h k = cc

  chosen :
      {A : Type 0} (b c : Bool) (x y : A)
      → is_some {A = ℕ} (if b then some 0 else if c then some 0 else none) ≡ true
      → is_some (if b then some x else if c then some y else none) ≡ true
  chosen true c x y h = refl
  chosen false true x y h = refl
  chosen false false x y h = cc

  one_of_two_choice :
      {A : Type 0} (a b : A) (id : ℕ)
      → is_some {A = ℕ} (one_of_two 0 0 id) ≡ true
      → is_some (one_of_two a b id) ≡ true
  one_of_two_choice a b id h = chosen (id == 0) (id == 1) a b h

  picked :
      {A : Type 0} (b c : Bool) (x y : A)
      → is_some {A = ℕ} (if b then some 0 else if c then some 0 else none) ≡ true
      → refused (if b then ok x else if c then ok y else err eexist) ≡ false
  picked true c x y h = refl
  picked false true x y h = refl
  picked false false x y h = cc

  to_int-Known : (m : M F ℕ) → Known m → Known (do v ← m; pure (long_to_int v))
  to_int-Known m k = bind-Known m (λ v. pure (long_to_int v)) k (λ v. pure-Known (long_to_int v))

  wmi_int-Known :
      (guid : String) (m : ℕ) (params : List ℕ)
      → Known (do v ← wmi_exec_int fw guid 0 m params; pure (long_to_int v))
  wmi_int-Known guid m params =
      to_int-Known (wmi_exec_int fw guid 0 m params) (wmi_exec_int-Known fw guid 0 m params)

  noarg-Known :
      (guid : String) (m : ℕ) → Known (do v ← wmi_exec_noarg_int fw guid 0 m; pure (long_to_int v))
  noarg-Known guid m =
      to_int-Known (wmi_exec_noarg_int fw guid 0 m) (wmi_exec_noarg_int-Known fw guid 0 m)

  read_fanspeed_by-refused :
      (a : AccessMethod) (id : ℕ) (s : State F)
      → speed_readable fw conf a id ≡ true
      → refused (read_fanspeed_by fw conf a id s).0 ≡ false
  unfolding read_fanspeed_by ec_read_fanspeed acpi_read_fanspeed wmi_read_fanspeed_gz
      wmi_read_fanspeed wmi_read_fanspeed_other speed_readable
  read_fanspeed_by-refused ec id s h = picked (id == 0) (id == 1) _ _ h
  read_fanspeed_by-refused acpi id s h =
      (with_choice-Known (err einval) (fanspeed_path fw conf id) _ h λ path.
          bind-Known (eval_int fw path) _ (eval_int-Known fw path) (λ v. pure-Known _)).known
        s
  read_fanspeed_by-refused wmi id s h =
      (with_choice-Known (err eexist) (one_of_two 8 9 id) _ (one_of_two_choice 8 9 id h)
          λ m. noarg-Known gamezone_guid m).known
        s
  read_fanspeed_by-refused wmi2 id s h = (wmi_int-Known fan_method_guid 7 (u8 id ∷ [])).known s
  read_fanspeed_by-refused wmi3 id s h =
      (with_choice-Known (err eexist) (one_of_two 0x04030001 0x04030002 id) _
          (one_of_two_choice 0x04030001 0x04030002 id h) λ f. get_value-Known fw f).known
        s
  read_fanspeed_by-refused _ id s h = cc

  read_temperature_by-refused :
      (a : AccessMethod) (id : ℕ) (s : State F)
      → temperature_readable fw conf a id ≡ true
      → refused (read_temperature_by fw conf a id s).0 ≡ false
  unfolding read_temperature_by ec_read_temperature acpi_read_temperature wmi_read_temperature_gz
      wmi_read_temperature wmi_read_temperature_other temperature_readable
  read_temperature_by-refused ec id s h = picked (id == 0) (id == 1) _ _ h
  read_temperature_by-refused acpi id s h =
      (with_choice-Known (err eexist) (temperature_path fw conf id) _ h
          λ path. to_int-Known (eval_int fw path) (eval_int-Known fw path)).known
        s
  read_temperature_by-refused wmi id s h =
      (with_choice-Known (err eexist) (one_of_two 18 19 id) _ (one_of_two_choice 18 19 id h)
          λ m. noarg-Known gamezone_guid m).known
        s
  read_temperature_by-refused wmi2 id s h =
      (with_choice-Known (err eexist) (one_of_two 3 4 id) _ (one_of_two_choice 3 4 id h)
          λ i. wmi_int-Known fan_method_guid 8 (i ∷ [])).known
        s
  read_temperature_by-refused wmi3 id s h =
      (with_choice-Known (err eexist) (one_of_two 0x05040000 0x05050000 id) _
          (one_of_two_choice 0x05040000 0x05050000 id h) λ f. get_value-Known fw f).known
        s
  read_temperature_by-refused _ id s h = cc

  in_millidegrees-refused :
      (p : Result ℤ × State F) → refused p.0 ≡ false → refused (in_millidegrees p).0 ≡ false
  unfolding in_millidegrees
  in_millidegrees-refused (ok v, s) h = refl
  in_millidegrees-refused (err e, s) h = h

  sensor_show-refused :
      (attr : SensorAttr) (s : State F)
      → readable fw conf attr ≡ true
      → refused (sensor_show fw conf attr s).0 ≡ false
  unfolding sensor_show read_temperature read_fanspeed readable
  sensor_show-refused sensor_cpu_temp s h =
      in_millidegrees-refused _ (read_temperature_by-refused conf.access_method_temperature 0 s h)
  sensor_show-refused sensor_gpu_temp s h =
      in_millidegrees-refused _ (read_temperature_by-refused conf.access_method_temperature 1 s h)
  sensor_show-refused sensor_ic_temp s h = refl
  sensor_show-refused sensor_fan1_rpm s h =
      read_fanspeed_by-refused conf.access_method_fanspeed 0 s h
  sensor_show-refused sensor_fan2_rpm s h =
      read_fanspeed_by-refused conf.access_method_fanspeed 1 s h
  sensor_show-refused sensor_fan3_rpm s h =
      read_fanspeed_by-refused conf.access_method_fanspeed 2 s h
  sensor_show-refused sensor_fan4_rpm s h =
      read_fanspeed_by-refused conf.access_method_fanspeed 3 s h
  sensor_show-refused sensor_fan1_target_rpm s h = refl
  sensor_show-refused sensor_fan2_target_rpm s h = refl
  sensor_show-refused sensor_other s h = refl

-- On every model of the allowlist that has an access method for the speeds of the fans: a sensor that is
-- visible is never refused with EEXIST or EINVAL, the codes for an id and for an access method that the
-- driver cannot read, whatever the firmware answers.
pub visible_sensor_answers :
    {F : Type 0} (fw : Firmware F) (e : DmiEntry) (attr : SensorAttr) (s : State F)
    → Memᴰ e optimistic_allowlist
    → is_no_access e.driver_data.access_method_fanspeed ≡ false
    → legion_hwmon_sensor_is_visible e.driver_data attr ≡ true
    → refused (sensor_show fw e.driver_data attr s).0 ≡ false
visible_sensor_answers fw e attr s m a v =
    sensor_show-refused fw e.driver_data attr s (entry_readable fw e attr m a v)
