-- ===== src/Sensors.antt =====
-- Temperatures and fan speeds by each access method: the EC's registers, ACPI, and three WMI interfaces.
pub mod Show
pub mod Laws
use sc_control.Base.{
  ℕ, ◌+◌, ◌*◌, ◌==◌, if◌then◌else◌, String, Option, none, some, [], ◌∷◌, ℤ, pos, signed32, u8, u32,
}
use sc_control.Errno.{Result, ok, err, eexist, einval}
use sc_control.Ec.{Ram, ecram_read}
use sc_control.Model.Config.{
  ModelConfig, AccessMethod, ec, acpi, wmi, wmi2, wmi3, get_model_acpi_path,
  acpi_path_read_fanspeed1, acpi_path_read_fanspeed2, acpi_path_read_cpu_temp,
  acpi_path_read_gpu_temp,
}
use sc_control.Firmware.State.{Firmware, State, M, pure, fail, ◌>>=◌}
use sc_control.Firmware.Wmi.{wmi_exec_int, wmi_exec_noarg_int}
use sc_control.Firmware.Acpi.{eval_int}
use sc_control.Firmware.Other.{wmi_other_method_get_value}
use sc_control.PowerMode.Access.{gamezone_guid}
use sc_control.FanControl.FullSpeed.{fan_method_guid}

pub record SensorValues : Type 0 where
  pub fan1_rpm : ℕ
  pub fan2_rpm : ℕ
  pub fan1_target_rpm : ℕ
  pub fan2_target_rpm : ℕ
  pub cpu_temp_celsius : ℕ
  pub gpu_temp_celsius : ℕ
  pub ic_temp_celsius : ℕ

-- Two registers as a word of 16 bits.
abbrev pub rpm_of : Ram → ℕ → ℕ → ℕ
rpm_of ram lsb msb = ecram_read ram lsb + ecram_read ram msb * 256

abbrev pub fan_target_mult : ModelConfig → ℕ
fan_target_mult model =
    if model.fan_target_is_duty then 100 else if model.acpi_fanspeed_is_rpm then 1 else 100

-- `ec_read_sensor_values`: the temperatures that are read from the model's registers are overwritten.
unfoldable pub ec_read_sensor_values : Ram → ModelConfig → SensorValues
ec_read_sensor_values ram model =
    let r = model.registers in
    record {
      fan1_rpm = rpm_of ram r.ext_fan1_rpm_lsb r.ext_fan1_rpm_msb;
      fan2_rpm = rpm_of ram r.ext_fan2_rpm_lsb r.ext_fan2_rpm_msb;
      fan1_target_rpm = fan_target_mult model * ecram_read ram r.ext_fan1_target_rpm;
      fan2_target_rpm = fan_target_mult model * ecram_read ram r.ext_fan2_target_rpm;
      cpu_temp_celsius = ecram_read ram 0xc5e6;
      gpu_temp_celsius = ecram_read ram 0xc5e7;
      ic_temp_celsius = ecram_read ram 0xc5e8;
    }

-- `ec_read_temperature`
unfoldable pub ec_read_temperature : Ram → ℕ → Result ℤ
ec_read_temperature ram sensor_id =
    if sensor_id == 0
    then ok (pos (ecram_read ram 0xc5e6))
    else if sensor_id == 1
    then ok (pos (ecram_read ram 0xc5e7))
    else err eexist

-- `ec_read_fanspeed`
unfoldable pub ec_read_fanspeed : Ram → ModelConfig → ℕ → Result ℤ
ec_read_fanspeed ram model fan_id =
    let r = model.registers in
    if fan_id == 0
    then ok (pos (rpm_of ram r.ext_fan1_rpm_lsb r.ext_fan1_rpm_msb))
    else if fan_id == 1
    then ok (pos (rpm_of ram r.ext_fan2_rpm_lsb r.ext_fan2_rpm_msb))
    else err eexist

-- The conversion of an unsigned long to an int.
abbrev pub long_to_int : ℕ → ℤ
long_to_int v = signed32 (u32 v)

-- The choice between two items by an id.
abbrev pub one_of_two : {A : Type 0} → A → A → ℕ → Option A
one_of_two a b id = if id == 0 then some a else if id == 1 then some b else none

module _ {F : Type 0} (fw : Firmware F) (conf : ModelConfig) where
  -- A call with the item that was chosen, or the error code of an unknown id.
  unfoldable pub with_choice : {A B : Type 0} → Result B → Option A → (A → M F B) → M F B
  with_choice otherwise none call s = (otherwise, s)
  with_choice otherwise (some a) call s = call a s

  -- The ACPI name of a fan's speed: the model's for the first two fans.
  unfoldable pub fanspeed_path : ℕ → Option String
  fanspeed_path fan_id =
      if fan_id == 0
      then get_model_acpi_path conf acpi_path_read_fanspeed1
      else if fan_id == 1
      then get_model_acpi_path conf acpi_path_read_fanspeed2
      else if fan_id == 2
      then some "FA3S"
      else if fan_id == 3
      then some "FA4S"
      else none

  -- `acpi_read_fanspeed`; the product of two ints wraps.
  unfoldable pub acpi_read_fanspeed : ℕ → M F ℤ
  unfolding with_choice fanspeed_path eval_int
  acpi_read_fanspeed fan_id = with_choice (err einval) (fanspeed_path fan_id) λ path. do
    v ← eval_int fw path
    pure (if conf.acpi_fanspeed_is_rpm then long_to_int v else long_to_int (v * 100))

  -- The ACPI name of a temperature.
  unfoldable pub temperature_path : ℕ → Option String
  temperature_path sensor_id =
      if sensor_id == 0
      then get_model_acpi_path conf acpi_path_read_cpu_temp
      else if sensor_id == 1
      then get_model_acpi_path conf acpi_path_read_gpu_temp
      else none

  -- `acpi_read_temperature`
  unfoldable pub acpi_read_temperature : ℕ → M F ℤ
  unfolding with_choice temperature_path eval_int
  acpi_read_temperature sensor_id =
      with_choice (err eexist) (temperature_path sensor_id)
        λ path. do v ← eval_int fw path; pure (long_to_int v)

  -- `wmi_read_fanspeed`: the first byte of the id is the parameter.
  unfoldable pub wmi_read_fanspeed : ℕ → M F ℤ
  unfolding wmi_exec_int
  wmi_read_fanspeed fan_id = do
    v ← wmi_exec_int fw fan_method_guid 0 7 (u8 fan_id ∷ [])
    pure (long_to_int v)

  -- `wmi_read_temperature`
  unfoldable pub wmi_read_temperature : ℕ → M F ℤ
  unfolding with_choice wmi_exec_int
  wmi_read_temperature sensor_id =
      with_choice (err eexist) (one_of_two 3 4 sensor_id)
        λ id. do v ← wmi_exec_int fw fan_method_guid 0 8 (id ∷ []); pure (long_to_int v)

  -- `wmi_read_fanspeed_gz`
  unfoldable pub wmi_read_fanspeed_gz : ℕ → M F ℤ
  unfolding with_choice wmi_exec_noarg_int
  wmi_read_fanspeed_gz fan_id =
      with_choice (err eexist) (one_of_two 8 9 fan_id)
        λ method. do v ← wmi_exec_noarg_int fw gamezone_guid 0 method; pure (long_to_int v)

  -- `wmi_read_temperature_gz`
  unfoldable pub wmi_read_temperature_gz : ℕ → M F ℤ
  unfolding with_choice wmi_exec_noarg_int
  wmi_read_temperature_gz sensor_id =
      with_choice (err eexist) (one_of_two 18 19 sensor_id)
        λ method. do v ← wmi_exec_noarg_int fw gamezone_guid 0 method; pure (long_to_int v)

  -- `wmi_read_fanspeed_other`
  unfoldable pub wmi_read_fanspeed_other : ℕ → M F ℤ
  unfolding with_choice wmi_other_method_get_value
  wmi_read_fanspeed_other fan_id =
      with_choice (err eexist) (one_of_two 0x04030001 0x04030002 fan_id)
        (wmi_other_method_get_value fw)

  -- `wmi_read_temperature_other`
  unfoldable pub wmi_read_temperature_other : ℕ → M F ℤ
  unfolding with_choice wmi_other_method_get_value
  wmi_read_temperature_other sensor_id =
      with_choice (err eexist) (one_of_two 0x05040000 0x05050000 sensor_id)
        (wmi_other_method_get_value fw)

  unfoldable pub read_fanspeed_by : AccessMethod → ℕ → M F ℤ
  unfolding acpi_read_fanspeed wmi_read_fanspeed_gz wmi_read_fanspeed wmi_read_fanspeed_other
  read_fanspeed_by ec fan_id s = (ec_read_fanspeed s.ram conf fan_id, s)
  read_fanspeed_by acpi fan_id s = acpi_read_fanspeed fan_id s
  read_fanspeed_by wmi fan_id s = wmi_read_fanspeed_gz fan_id s
  read_fanspeed_by wmi2 fan_id s = wmi_read_fanspeed fan_id s
  read_fanspeed_by wmi3 fan_id s = wmi_read_fanspeed_other fan_id s
  read_fanspeed_by _ fan_id s = (err einval, s)

  -- `read_fanspeed`
  unfoldable pub read_fanspeed : ℕ → M F ℤ
  unfolding read_fanspeed_by
  read_fanspeed = read_fanspeed_by conf.access_method_fanspeed

  unfoldable pub read_temperature_by : AccessMethod → ℕ → M F ℤ
  unfolding acpi_read_temperature wmi_read_temperature_gz wmi_read_temperature
      wmi_read_temperature_other
  read_temperature_by ec sensor_id s = (ec_read_temperature s.ram sensor_id, s)
  read_temperature_by acpi sensor_id s = acpi_read_temperature sensor_id s
  read_temperature_by wmi sensor_id s = wmi_read_temperature_gz sensor_id s
  read_temperature_by wmi2 sensor_id s = wmi_read_temperature sensor_id s
  read_temperature_by wmi3 sensor_id s = wmi_read_temperature_other sensor_id s
  read_temperature_by _ sensor_id s = (err einval, s)

  -- `read_temperature`
  unfoldable pub read_temperature : ℕ → M F ℤ
  unfolding read_temperature_by
  read_temperature = read_temperature_by conf.access_method_temperature
