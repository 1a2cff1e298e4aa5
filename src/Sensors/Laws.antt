-- ===== src/Sensors/Laws.antt =====
-- What the sensors show, and what showing them leaves alone.
use sc_control.Base.{
  ℕ, ◌*◌, ◌≤◌, ◌<◌, u8, [], ◌∷◌, ◌≡◌, sym, subst, Bool, true, false, if◌then◌else◌, Option, none,
  some, ℤ, pos, arith,
}
use sc_control.Errno.{Result, ok, err, OnOk}
use sc_control.Ec.{Ram}
use sc_control.Ec.Bytes.{IsRam, ecram_read-lt}
use sc_control.Model.Config.{ModelConfig, AccessMethod, ec, acpi, wmi, wmi2, wmi3}
use sc_control.Firmware.State.{Firmware, State, M, pure, ◌>>=◌}
use sc_control.Firmware.Acpi.{eval_int}
use sc_control.Firmware.Wmi.{wmi_exec_int, wmi_exec_noarg_int}
use sc_control.Firmware.Keeps.{
  KeepsDriver, bind-KeepsDriver, pure-KeepsDriver, eval_int-KeepsDriver, wmi_exec_int-KeepsDriver,
  wmi_exec_noarg_int-KeepsDriver, get_value-KeepsDriver,
}
use sc_control.FanControl.Keeps.{SameDriver, SameDriver-refl}
use sc_control.PowerMode.Access.{gamezone_guid}
use sc_control.FanControl.FullSpeed.{fan_method_guid}
use sc_control.Sensors.{
  rpm_of, ec_read_temperature, ec_read_fanspeed, ec_read_sensor_values, with_choice, fanspeed_path,
  temperature_path, acpi_read_fanspeed, acpi_read_temperature, wmi_read_fanspeed,
  wmi_read_temperature, wmi_read_fanspeed_gz, wmi_read_temperature_gz, wmi_read_fanspeed_other,
  wmi_read_temperature_other, read_fanspeed_by, read_fanspeed, read_temperature_by,
  read_temperature, one_of_two, long_to_int,
}
use sc_control.Sensors.Show.{
  times_thousand, SensorAttr, sensor_cpu_temp, sensor_gpu_temp, sensor_ic_temp, sensor_fan1_rpm,
  sensor_fan2_rpm, sensor_fan1_target_rpm, sensor_fan2_target_rpm, sensor_fan3_rpm, sensor_fan4_rpm,
  sensor_other, in_millidegrees, sensor_show,
}

-- A number that is not negative and at most the bound.
pub data UpTo (bound : ℕ) : ℤ → Type 0 where
  up_to : (n : ℕ) → n ≤ bound → UpTo bound (pos n)

-- The greatest number that a sensor of the EC can show.
abbrev pub ec_sensor_max : SensorAttr → ℕ
ec_sensor_max sensor_cpu_temp = 255000
ec_sensor_max sensor_gpu_temp = 255000
ec_sensor_max sensor_ic_temp = 255000
ec_sensor_max sensor_fan1_target_rpm = 25500
ec_sensor_max sensor_fan2_target_rpm = 25500
ec_sensor_max _ = 65535

module _ {F : Type 0} (fw : Firmware F) (conf : ModelConfig) where
  choice-KeepsDriver :
      {A B : Type 0} (r : Result B) (o : Option A) (call : A → M F B)
      → ((a : A) → KeepsDriver (call a))
      → KeepsDriver (with_choice fw conf r o call)
  unfolding with_choice
  choice-KeepsDriver r none call h = record { kept = SameDriver-refl }
  choice-KeepsDriver r (some a) call h = record { kept = (h a).kept }

  value-KeepsDriver :
      {A B : Type 0} (m : M F A) (f : A → B) → KeepsDriver m → KeepsDriver (m >>= λ a. pure (f a))
  value-KeepsDriver m f h = bind-KeepsDriver m (λ a. pure (f a)) h (λ a. pure-KeepsDriver (f a))

  fanspeed-KeepsDriver :
      (m : AccessMethod) (fan_id : ℕ) → KeepsDriver (read_fanspeed_by fw conf m fan_id)
  unfolding read_fanspeed_by acpi_read_fanspeed wmi_read_fanspeed_gz wmi_read_fanspeed
      wmi_read_fanspeed_other
  fanspeed-KeepsDriver acpi fan_id = choice-KeepsDriver _ (fanspeed_path fw conf fan_id) _ λ path.
      value-KeepsDriver (eval_int fw path)
        (λ v. if conf.acpi_fanspeed_is_rpm then long_to_int v else long_to_int (v * 100))
        (eval_int-KeepsDriver fw path)
  fanspeed-KeepsDriver wmi fan_id = choice-KeepsDriver _ (one_of_two 8 9 fan_id) _ λ id.
      value-KeepsDriver (wmi_exec_noarg_int fw gamezone_guid 0 id) long_to_int
        (wmi_exec_noarg_int-KeepsDriver fw _ 0 id)
  fanspeed-KeepsDriver wmi2 fan_id =
      value-KeepsDriver (wmi_exec_int fw fan_method_guid 0 7 (u8 fan_id ∷ [])) long_to_int
        (wmi_exec_int-KeepsDriver fw _ 0 7 _)
  fanspeed-KeepsDriver wmi3 fan_id =
      choice-KeepsDriver _ (one_of_two 0x04030001 0x04030002 fan_id) _ (get_value-KeepsDriver fw)
  fanspeed-KeepsDriver _ fan_id = record { kept = SameDriver-refl }

  temperature-KeepsDriver :
      (m : AccessMethod) (sensor_id : ℕ) → KeepsDriver (read_temperature_by fw conf m sensor_id)
  unfolding read_temperature_by acpi_read_temperature wmi_read_temperature_gz wmi_read_temperature
      wmi_read_temperature_other
  temperature-KeepsDriver acpi sensor_id =
      choice-KeepsDriver _ (temperature_path fw conf sensor_id) _
        λ path. value-KeepsDriver (eval_int fw path) long_to_int (eval_int-KeepsDriver fw path)
  temperature-KeepsDriver wmi sensor_id = choice-KeepsDriver _ (one_of_two 18 19 sensor_id) _ λ id.
      value-KeepsDriver (wmi_exec_noarg_int fw gamezone_guid 0 id) long_to_int
        (wmi_exec_noarg_int-KeepsDriver fw _ 0 id)
  temperature-KeepsDriver wmi2 sensor_id = choice-KeepsDriver _ (one_of_two 3 4 sensor_id) _ λ id.
      value-KeepsDriver (wmi_exec_int fw fan_method_guid 0 8 (id ∷ [])) long_to_int
        (wmi_exec_int-KeepsDriver fw _ 0 8 _)
  temperature-KeepsDriver wmi3 sensor_id =
      choice-KeepsDriver _ (one_of_two 0x05040000 0x05050000 sensor_id) _ (get_value-KeepsDriver fw)
  temperature-KeepsDriver _ sensor_id = record { kept = SameDriver-refl }

  millidegrees-SameDriver :
      (s : State F) (p : Result ℤ × State F) → SameDriver s p.1 → SameDriver s (in_millidegrees p).1
  unfolding in_millidegrees
  millidegrees-SameDriver s (ok v, t) h = h
  millidegrees-SameDriver s (err e, t) h = h

  -- Showing any sensor, by any access method and with any firmware, changes neither the EC RAM nor the
  -- remembered fan curve.
  pub sensor_show-SameDriver :
      (attr : SensorAttr) (s : State F) → SameDriver s (sensor_show fw conf attr s).1
  unfolding sensor_show read_fanspeed read_temperature
  sensor_show-SameDriver sensor_cpu_temp s =
      millidegrees-SameDriver s _
        ((temperature-KeepsDriver conf.access_method_temperature 0).kept s)
  sensor_show-SameDriver sensor_gpu_temp s =
      millidegrees-SameDriver s _
        ((temperature-KeepsDriver conf.access_method_temperature 1).kept s)
  sensor_show-SameDriver sensor_fan1_rpm s =
      (fanspeed-KeepsDriver conf.access_method_fanspeed 0).kept s
  sensor_show-SameDriver sensor_fan2_rpm s =
      (fanspeed-KeepsDriver conf.access_method_fanspeed 1).kept s
  sensor_show-SameDriver sensor_fan3_rpm s =
      (fanspeed-KeepsDriver conf.access_method_fanspeed 2).kept s
  sensor_show-SameDriver sensor_fan4_rpm s =
      (fanspeed-KeepsDriver conf.access_method_fanspeed 3).kept s
  sensor_show-SameDriver _ s = SameDriver-refl s

  byte_bound : (n : ℕ) → n < 256 → UpTo 255000 (times_thousand (pos n))
  byte_bound n h = subst (UpTo 255000) (ground arith) (up_to (n * 1000) (omega arith))

  target_bound :
      (b c : Bool) (n : ℕ)
      → n < 256
      → UpTo 25500 (pos ((if b then 100 else if c then 1 else 100) * n))
  target_bound true c n h = up_to (100 * n) (omega arith)
  target_bound false true n h = up_to (1 * n) (omega arith)
  target_bound false false n h = up_to (100 * n) (omega arith)

  word_bound : (ram : Ram) (lsb msb : ℕ) → IsRam ram → UpTo 65535 (pos (rpm_of ram lsb msb))
  word_bound ram lsb msb h =
      let l = ecram_read-lt lsb h in
      let m = ecram_read-lt msb h in up_to (rpm_of ram lsb msb) (omega arith)

  by_ec_temperature :
      (id : ℕ) (P : ℤ → Type 0) (s : State F)
      → conf.access_method_temperature ≡ ec
      → OnOk P (in_millidegrees {F = F} (ec_read_temperature s.ram id, s)).0
      → OnOk P (in_millidegrees (read_temperature_by fw conf conf.access_method_temperature id s)).0
  unfolding read_temperature_by
  by_ec_temperature id P s e h =
      subst (λ m. OnOk P (in_millidegrees (read_temperature_by fw conf m id s)).0) (sym e) h

  by_ec_speed :
      (id : ℕ) (s : State F)
      → conf.access_method_fanspeed ≡ ec
      → OnOk (UpTo 65535) (ec_read_fanspeed s.ram conf id)
      → OnOk (UpTo 65535) (read_fanspeed_by fw conf conf.access_method_fanspeed id s).0
  unfolding read_fanspeed_by
  by_ec_speed id s e h =
      subst (λ m. OnOk (UpTo 65535) (read_fanspeed_by fw conf m id s).0) (sym e) h

  -- On a model whose temperatures and fan speeds are read from an EC RAM of bytes, a sensor that shows a
  -- value shows one that is not negative and at most 255000 for a temperature, 25500 for the target of a
  -- fan and 65535 for the speed of a fan.
  pub ec_sensor_show_bounds :
      (attr : SensorAttr) (s : State F)
      → conf.access_method_temperature ≡ ec
      → conf.access_method_fanspeed ≡ ec
      → IsRam s.ram
      → OnOk (UpTo (ec_sensor_max attr)) (sensor_show fw conf attr s).0
  unfolding sensor_show read_fanspeed read_temperature ec_read_temperature ec_read_fanspeed
      ec_read_sensor_values in_millidegrees
  ec_sensor_show_bounds sensor_cpu_temp s t f h =
      by_ec_temperature 0 _ s t (byte_bound _ (ecram_read-lt 0xc5e6 h))
  ec_sensor_show_bounds sensor_gpu_temp s t f h =
      by_ec_temperature 1 _ s t (byte_bound _ (ecram_read-lt 0xc5e7 h))
  ec_sensor_show_bounds sensor_ic_temp s t f h = byte_bound _ (ecram_read-lt 0xc5e8 h)
  ec_sensor_show_bounds sensor_fan1_rpm s t f h = by_ec_speed 0 s f (word_bound s.ram _ _ h)
  ec_sensor_show_bounds sensor_fan2_rpm s t f h = by_ec_speed 1 s f (word_bound s.ram _ _ h)
  ec_sensor_show_bounds sensor_fan3_rpm s t f h = by_ec_speed 2 s f tt
  ec_sensor_show_bounds sensor_fan4_rpm s t f h = by_ec_speed 3 s f tt
  ec_sensor_show_bounds sensor_fan1_target_rpm s t f h =
      target_bound conf.fan_target_is_duty conf.acpi_fanspeed_is_rpm _ (ecram_read-lt _ h)
  ec_sensor_show_bounds sensor_fan2_target_rpm s t f h =
      target_bound conf.fan_target_is_duty conf.acpi_fanspeed_is_rpm _ (ecram_read-lt _ h)
  ec_sensor_show_bounds sensor_other s t f h = tt
