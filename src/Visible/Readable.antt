-- ===== src/Visible/Readable.antt =====
-- The sensors that the access methods of a model can read.
use sc_control.Base.{ℕ, ◌≡◌, refl, Bool, true, false, not, ◌&&◌, ◌||◌, Option, none, some}
use mathlib.Core.List.{Memᴰ}
use sc_control.Base.Tables.{all_entries, all_entries_sound}
use sc_control.Model.Config.{
  ModelConfig, AccessMethod, ec, acpi, wmi, wmi2, wmi3, get_model_acpi_path,
}
use sc_control.Model.Allowlist.{DmiEntry, optimistic_allowlist}
use sc_control.FanCurve.Layout.Allowlisted.{All-Mem}
use sc_control.Firmware.State.{Firmware}
use sc_control.Sensors.{one_of_two, fanspeed_path, temperature_path}
use sc_control.Sensors.Show.{
  SensorAttr, sensor_cpu_temp, sensor_gpu_temp, sensor_ic_temp, sensor_fan1_rpm, sensor_fan2_rpm,
  sensor_fan1_target_rpm, sensor_fan2_target_rpm, sensor_fan3_rpm, sensor_fan4_rpm, sensor_other,
}
use sc_control.Probe.Leds.{is_no_access}
use sc_control.Visible.Sensors.{legion_hwmon_sensor_is_visible}

abbrev pub is_some : {A : Type 0} → Option A → Bool
is_some none = false
is_some (some _) = true

module _ {F : Type 0} (fw : Firmware F) (conf : ModelConfig) where
  -- Can the access method read the speed of the fan, and the temperature of the sensor?
  unfoldable pub speed_readable : AccessMethod → ℕ → Bool
  unfolding fanspeed_path
  speed_readable acpi id = is_some (fanspeed_path fw conf id)
  speed_readable wmi2 id = true
  speed_readable ec id = is_some {A = ℕ} (one_of_two 0 0 id)
  speed_readable wmi id = is_some {A = ℕ} (one_of_two 0 0 id)
  speed_readable wmi3 id = is_some {A = ℕ} (one_of_two 0 0 id)
  speed_readable _ id = false

  unfoldable pub temperature_readable : AccessMethod → ℕ → Bool
  unfolding temperature_path
  temperature_readable acpi id = is_some (temperature_path fw conf id)
  temperature_readable ec id = is_some {A = ℕ} (one_of_two 0 0 id)
  temperature_readable wmi id = is_some {A = ℕ} (one_of_two 0 0 id)
  temperature_readable wmi2 id = is_some {A = ℕ} (one_of_two 0 0 id)
  temperature_readable wmi3 id = is_some {A = ℕ} (one_of_two 0 0 id)
  temperature_readable _ id = false

  unfoldable pub readable : SensorAttr → Bool
  unfolding speed_readable temperature_readable
  readable sensor_cpu_temp = temperature_readable conf.access_method_temperature 0
  readable sensor_gpu_temp = temperature_readable conf.access_method_temperature 1
  readable sensor_fan1_rpm = speed_readable conf.access_method_fanspeed 0
  readable sensor_fan2_rpm = speed_readable conf.access_method_fanspeed 1
  readable sensor_fan3_rpm = speed_readable conf.access_method_fanspeed 2
  readable sensor_fan4_rpm = speed_readable conf.access_method_fanspeed 3
  readable _ = true

  unfoldable shown_readable : SensorAttr → Bool
  unfolding legion_hwmon_sensor_is_visible readable
  shown_readable attr = not (legion_hwmon_sensor_is_visible conf attr) || readable attr

  -- The sensors that read a temperature or a speed.
  unfoldable model_readable : Bool
  model_readable =
      shown_readable sensor_cpu_temp
      && (shown_readable sensor_gpu_temp
          && (shown_readable sensor_fan1_rpm
              && (shown_readable sensor_fan2_rpm
                  && (shown_readable sensor_fan3_rpm && shown_readable sensor_fan4_rpm))))

  split : (a b : Bool) → (a && b) ≡ true → (a ≡ true) × (b ≡ true)
  split true b h = (refl, h)
  split false b h = cc

  shown : (v r : Bool) → (not v || r) ≡ true → v ≡ true → r ≡ true
  shown true r h e = h
  shown false r h e = cc

  model_readable_facts :
      model_readable ≡ true
      → (shown_readable sensor_cpu_temp ≡ true)
        × ((shown_readable sensor_gpu_temp ≡ true)
            × ((shown_readable sensor_fan1_rpm ≡ true)
                × ((shown_readable sensor_fan2_rpm ≡ true)
                    × ((shown_readable sensor_fan3_rpm ≡ true)
                        × (shown_readable sensor_fan4_rpm ≡ true)))))
  unfolding model_readable
  model_readable_facts h =
      let (a, h1) = split (shown_readable sensor_cpu_temp) _ h in
      let (b, h2) = split (shown_readable sensor_gpu_temp) _ h1 in
      let (c, h3) = split (shown_readable sensor_fan1_rpm) _ h2 in
      let (d, h4) = split (shown_readable sensor_fan2_rpm) _ h3 in
      (a, (b, (c, (d, split (shown_readable sensor_fan3_rpm) _ h4))))

  shown_lem :
      (attr : SensorAttr)
      → shown_readable attr ≡ true
      → legion_hwmon_sensor_is_visible conf attr ≡ true
      → readable attr ≡ true
  unfolding legion_hwmon_sensor_is_visible shown_readable
  shown_lem attr h v = shown (legion_hwmon_sensor_is_visible conf attr) (readable attr) h v

  model_readable_lem :
      (attr : SensorAttr)
      → model_readable ≡ true
      → legion_hwmon_sensor_is_visible conf attr ≡ true
      → readable attr ≡ true
  unfolding readable
  model_readable_lem sensor_cpu_temp h = shown_lem sensor_cpu_temp (model_readable_facts h).0
  model_readable_lem sensor_gpu_temp h = shown_lem sensor_gpu_temp (model_readable_facts h).1.0
  model_readable_lem sensor_fan1_rpm h = shown_lem sensor_fan1_rpm (model_readable_facts h).1.1.0
  model_readable_lem sensor_fan2_rpm h = shown_lem sensor_fan2_rpm (model_readable_facts h).1.1.1.0
  model_readable_lem sensor_fan3_rpm h =
      shown_lem sensor_fan3_rpm (model_readable_facts h).1.1.1.1.0
  model_readable_lem sensor_fan4_rpm h =
      shown_lem sensor_fan4_rpm (model_readable_facts h).1.1.1.1.1
  model_readable_lem sensor_ic_temp h = λ v. refl
  model_readable_lem sensor_fan1_target_rpm h = λ v. refl
  model_readable_lem sensor_fan2_target_rpm h = λ v. refl
  model_readable_lem sensor_other h = λ v. refl

all_models_readable :
    {F : Type 0} (fw : Firmware F)
    → all_entries
        (λ e. is_no_access e.driver_data.access_method_fanspeed || model_readable fw e.driver_data)
        optimistic_allowlist
      ≡ true
unfolding model_readable all_entries shown_readable readable temperature_readable speed_readable
    legion_hwmon_sensor_is_visible get_model_acpi_path fanspeed_path temperature_path
all_models_readable fw = refl

either : (a b : Bool) → a ≡ false → (a || b) ≡ true → b ≡ true
either true b h e = cc
either false b h e = e

-- The test holds of every entry of the list.
pub entry_readable :
    {F : Type 0} (fw : Firmware F) (e : DmiEntry) (attr : SensorAttr)
    → Memᴰ e optimistic_allowlist
    → is_no_access e.driver_data.access_method_fanspeed ≡ false
    → legion_hwmon_sensor_is_visible e.driver_data attr ≡ true
    → readable fw e.driver_data attr ≡ true
entry_readable fw e attr m a v =
    model_readable_lem fw e.driver_data attr
      (either (is_no_access e.driver_data.access_method_fanspeed) (model_readable fw e.driver_data)
        a
        (All-Mem
          (λ x.
            (is_no_access x.driver_data.access_method_fanspeed || model_readable fw x.driver_data)
            ≡ true)
          optimistic_allowlist
          (all_entries_sound
            (λ x.
              is_no_access x.driver_data.access_method_fanspeed || model_readable fw x.driver_data)
            _ (λ _ h. h) optimistic_allowlist (all_models_readable fw))
          m))
      v
