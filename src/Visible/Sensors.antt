-- ===== src/Visible/Sensors.antt =====
-- Which sensors a model shows.
use sc_control.Base.{Bool, true, not}
use sc_control.Model.Config.{ModelConfig}
use sc_control.Sensors.Show.{
  SensorAttr, sensor_ic_temp, sensor_fan2_rpm, sensor_fan2_target_rpm, sensor_fan3_rpm,
  sensor_fan4_rpm,
}

-- `legion_hwmon_sensor_is_visible`, of the values and of the labels: no attribute is in two of the tests.
unfoldable pub legion_hwmon_sensor_is_visible : ModelConfig → SensorAttr → Bool
legion_hwmon_sensor_is_visible conf sensor_ic_temp = not conf.skip_ic_temp
legion_hwmon_sensor_is_visible conf sensor_fan3_rpm = conf.has_four_fans
legion_hwmon_sensor_is_visible conf sensor_fan4_rpm = conf.has_four_fans
legion_hwmon_sensor_is_visible conf sensor_fan2_rpm = not conf.has_single_fan
legion_hwmon_sensor_is_visible conf sensor_fan2_target_rpm = not conf.has_single_fan
legion_hwmon_sensor_is_visible conf _ = true
