-- ===== src/Sensors/Show.antt =====
-- The hwmon attributes of the sensors.
use sc_control.Base.{ℕ, ◌*◌, ◌==◌, if◌then◌else◌, String, ℤ, pos, signed32, unsigned32, u32}
use sc_control.Errno.{Result, ok, err, eopnotsupp}
use sc_control.Model.Config.{ModelConfig}
use sc_control.FanCurve.{max_rpm_default}
use sc_control.Firmware.State.{Firmware, State, M}
use sc_control.Sensors.{ec_read_sensor_values, read_temperature, read_fanspeed}

-- `enum SENSOR_ATTR`; `sensor_other` is any other index.
pub data SensorAttr : Type 0 where
  sensor_cpu_temp sensor_gpu_temp sensor_ic_temp sensor_fan1_rpm sensor_fan2_rpm : SensorAttr
  sensor_fan1_target_rpm sensor_fan2_target_rpm sensor_fan3_rpm sensor_fan4_rpm : SensorAttr
  sensor_other : SensorAttr

-- `outval *= 1000`, on an int
abbrev pub times_thousand : ℤ → ℤ
times_thousand v = signed32 (u32 (unsigned32 v * 1000))

-- `sensor_label_show`
unfoldable pub sensor_label_show : SensorAttr → Result String
sensor_label_show sensor_cpu_temp = ok "CPU Temperature"
sensor_label_show sensor_gpu_temp = ok "GPU Temperature"
sensor_label_show sensor_ic_temp = ok "IC Temperature"
sensor_label_show sensor_fan1_rpm = ok "Fan 1"
sensor_label_show sensor_fan2_rpm = ok "Fan 2"
sensor_label_show sensor_fan3_rpm = ok "Fan 3"
sensor_label_show sensor_fan4_rpm = ok "Fan 4"
sensor_label_show sensor_fan1_target_rpm = ok "Fan 1 Target"
sensor_label_show sensor_fan2_target_rpm = ok "Fan 2 Target"
sensor_label_show sensor_other = err eopnotsupp

-- `fan_max_show`, of a device with its data
unfoldable pub fan_max_show : ModelConfig → ℕ
fan_max_show conf = if conf.fan_max_rpm == 0 then max_rpm_default else conf.fan_max_rpm

unfoldable pub in_millidegrees : {F : Type 0} → Result ℤ × State F → Result ℤ × State F
in_millidegrees (ok v, s) = (ok (times_thousand v), s)
in_millidegrees (err e, s) = (err e, s)

module _ {F : Type 0} (fw : Firmware F) (conf : ModelConfig) where
  -- `sensor_show`: the number that it prints
  unfoldable pub sensor_show : SensorAttr → M F ℤ
  unfolding in_millidegrees
  sensor_show sensor_cpu_temp s = in_millidegrees (read_temperature fw conf 0 s)
  sensor_show sensor_gpu_temp s = in_millidegrees (read_temperature fw conf 1 s)
  sensor_show sensor_ic_temp s =
      (ok (times_thousand (pos (ec_read_sensor_values s.ram conf).ic_temp_celsius)), s)
  sensor_show sensor_fan1_rpm s = read_fanspeed fw conf 0 s
  sensor_show sensor_fan2_rpm s = read_fanspeed fw conf 1 s
  sensor_show sensor_fan3_rpm s = read_fanspeed fw conf 2 s
  sensor_show sensor_fan4_rpm s = read_fanspeed fw conf 3 s
  sensor_show sensor_fan1_target_rpm s =
      (ok (pos (ec_read_sensor_values s.ram conf).fan1_target_rpm), s)
  sensor_show sensor_fan2_target_rpm s =
      (ok (pos (ec_read_sensor_values s.ram conf).fan2_target_rpm), s)
  sensor_show sensor_other s = (err eopnotsupp, s)
