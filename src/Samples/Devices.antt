-- ===== src/Samples/Devices.antt =====
-- The theorems on attributes, limits, lights, sensors and the collected data, applied to firmware that
-- keeps a byte, the two limits or the bytes of a light.
use sc_control.Base.{
  ℕ, ◌+◌, ◌*◌, ◌/◌, ◌<◌, ◌≡◌, ◌≢◌, ◌≤◌, refl, ap, ◌++◌, true, false, if◌then◌else◌, ◌==◌, List, [],
  ◌∷◌, Option, none, some, pos, get_or, length, arith, u8, ◌≤ℤ◌,
}
use sc_control.Errno.{ok, err, enodev, OnOk}
use sc_control.Model.Config.{ModelConfig, ec, wmi3_clamped}
use sc_control.Model.Configs.{model_v0}
use sc_control.Firmware.State.{AcpiObject, integer, buffer, Firmware, State}
use sc_control.Firmware.Other.{other_method_guid, le32}
use sc_control.Samples.{sample_firmware, sample_state, sample_ram-IsRam}
use sc_control.Sensors.Show.{sensor_show, sensor_cpu_temp}
use sc_control.Sensors.Laws.{UpTo, ec_sensor_show_bounds}
use sc_control.Attributes.RoundTrip.{
  KeepsByte, winkey, switch_guid, switch_methods, switch_show, switch_store, switch_round_trip,
}
use sc_control.Lights.{brightness_of, light_id_ioport, legion_wmi_light_set, legion_wmi_light_get}
use sc_control.Lights.RoundTrip.{KeepsLight, keyboard, light_round_trip, ioport_never_missing}
use sc_control.PowerLimits.{Parsed}
use sc_control.PowerLimits.Kept.{
  CpuLimit, longterm, shortterm, KeepsLimits, limit, feature_of, partner_of,
}
use sc_control.PowerLimits.Ordered.{exceeds_of, cpu_limit_store, coupled_limits_ordered}
use sc_control.Capdata.{clamped_value, find_first, capdata_clamp}
use sc_control.Capdata.Collect.{
  Block, two_integers, collect_capdata, collect_features, collect, pair_of, group, add_entry,
  add_value,
}
use sc_control.Capdata.CollectLaws.{
  IsFeatures, Replaced, collected_sizes, last_count, eighth_feature_single,
}
use sc_control.Debug.{MemoryIo, debugfs_ecmemoryram_show, ecmemoryram_complete}
use sc_control.Attributes.FlipToStart.{
  EfiServices, flip_to_start_store, flip_to_start_show, flip_to_start_round_trip, flipped,
}

-- A firmware that is only asked by WMI.
abbrev wmi_only : {F : Type 0} → (ℕ → List ℕ → F → Option (Option AcpiObject) × F) → Firmware F
wmi_only answer = record {
  has_guid = λ g. true;
  evaluate_method = λ g i m params f. answer m params f;
  get_handle = λ p. false;
  evaluate_integer = λ p f. (none, f);
  execute_simple_method = λ p v f. (false, f);
  since_7_0 = false;
  companion = true;
}

abbrev state_of : {F : Type 0} → F → State F
state_of f = record {
  ram = sample_state.ram;
  firmware = f;
  fancurve = sample_state.fancurve;
  fancurve_valid = true;
  current_powermode = pos 2;
  fancurve_defaults_powermode = pos 0;
  fan_unlock_state = 0;
  cpu_pl_coupling = true;
}

-- It keeps the byte that method 22 is given, for method 23.
abbrev byte_firmware : Firmware ℕ
byte_firmware =
    wmi_only
      λ m params f. if m == 23 then (some (some (integer f)), f) else (some none, get_or params 0 0)

byte_firmware-KeepsByte : KeepsByte byte_firmware (switch_guid winkey) (switch_methods winkey)
byte_firmware-KeepsByte = record {
  present = refl;
  kept_byte = λ f. f;
  next = λ b f. b;
  answers = λ f. refl;
  accepts = λ b f. refl;
  keeps = λ b f h. refl;
}

switch_round_trip_example :
    let (r, t) = switch_store byte_firmware winkey (ok 1) (state_of 7) in
    (r ≡ ok tt) × ((switch_show byte_firmware winkey t).0 ≡ ok 1)
switch_round_trip_example =
    switch_round_trip byte_firmware winkey 1 (state_of 7) byte_firmware-KeepsByte (omega arith)

-- It keeps the two bytes of a light.
abbrev light_firmware : Firmware (ℕ × ℕ)
light_firmware = wmi_only λ m params f.
    if m == 1
    then (some (some (buffer (f.0 ∷ f.1 ∷ []))), f)
    else (some (some (integer 0)), (get_or params 1 0, get_or params 2 0))

light_firmware-KeepsLight : KeepsLight light_firmware 0
light_firmware-KeepsLight = record {
  present = refl;
  first = λ f. f.0;
  second = λ f. f.1;
  next = λ a b f. (a, b);
  answers = λ f. refl;
  accepts = λ a b f. refl;
  kept_first = λ a b f h. refl;
  kept_second = λ a b f h. refl;
}

light_round_trip_example :
    let (r, t) = legion_wmi_light_set light_firmware 0 1 3 2 (state_of (0, 0)) in
    (r ≡ ok tt) × ((legion_wmi_light_get light_firmware 0 1 3 t).0 ≡ ok 2)
light_round_trip_example =
    light_round_trip light_firmware keyboard 2 (state_of (0, 0)) light_firmware-KeepsLight
      (omega arith)

ioport_never_missing_example :
    (brightness_of light_id_ioport 0 2 (7 ∷ 0 ∷ []) ≡ ok 0)
    × (brightness_of light_id_ioport 0 2 (0 ∷ 9 ∷ []) ≢ err enodev)
    × (brightness_of light_id_ioport 1 2 (7 ∷ 0 ∷ []) ≡ err enodev)
ioport_never_missing_example = ioport_never_missing 7 [] (0 ∷ 9 ∷ [])

ec_sensor_show_bounds_example :
    let conf = record model_v0 { access_method_temperature = ec; access_method_fanspeed = ec } in
    OnOk (UpTo 255000) (sensor_show sample_firmware conf sensor_cpu_temp sample_state).0
ec_sensor_show_bounds_example =
    ec_sensor_show_bounds sample_firmware
      (record model_v0 { access_method_temperature = ec; access_method_fanspeed = ec })
      sensor_cpu_temp sample_state refl refl sample_ram-IsRam

-- It keeps the long-term and the short-term limit.
abbrev decoded : List ℕ → ℕ
decoded p = get_or p 4 0 + get_or p 5 0 * 256 + get_or p 6 0 * 65536 + get_or p 7 0 * 16777216

abbrev limit_firmware : Firmware (ℕ × ℕ)
limit_firmware = wmi_only λ m params f.
    let long = get_or params 2 0 == 2 in
    if m == 17
    then (some (some (integer (if long then f.0 else f.1))), f)
    else (some (some (integer 0)), if long then (decoded params, f.1) else (f.0, decoded params))

decoded_lem :
    (w : ℕ)
    → w < 4294967296
    → u8 w + u8 (w / 256) * 256 + u8 (w / 65536) * 65536 + u8 (w / 16777216) * 16777216 ≡ w
decoded_lem w h = omega arith

abbrev word_limit : CpuLimit → ℕ × ℕ → ℕ
word_limit longterm f = f.0
word_limit shortterm f = f.1

abbrev put_limit : CpuLimit → ℕ → ℕ × ℕ → ℕ × ℕ
put_limit longterm w f = (w, f.1)
put_limit shortterm w f = (f.0, w)

limit_accepts :
    (l : CpuLimit) (w : ℕ) (f : ℕ × ℕ)
    → w < 4294967296
    → limit_firmware.evaluate_method other_method_guid 0 18 (le32 (feature_of l) ++ le32 w) f
      ≡ (some (some (integer 0)), put_limit l w f)
limit_accepts longterm w f h = ap (λ v. (some (some (integer 0)), (v, f.1))) (decoded_lem w h)
limit_accepts shortterm w f h = ap (λ v. (some (some (integer 0)), (f.0, v))) (decoded_lem w h)

limit_answers :
    (l : CpuLimit) (f : ℕ × ℕ)
    → limit_firmware.evaluate_method other_method_guid 0 17 (le32 (feature_of l)) f
      ≡ (some (some (integer (word_limit l f))), f)
limit_answers longterm f = refl
limit_answers shortterm f = refl

limit_changed :
    (l : CpuLimit) (w : ℕ) (f : ℕ × ℕ) → w < 4294967296 → word_limit l (put_limit l w f) ≡ w
limit_changed longterm w f h = refl
limit_changed shortterm w f h = refl

limit_left_alone :
    (l : CpuLimit) (w : ℕ) (f : ℕ × ℕ)
    → word_limit (partner_of l) (put_limit l w f) ≡ word_limit (partner_of l) f
limit_left_alone longterm w f = refl
limit_left_alone shortterm w f = refl

limit_firmware-KeepsLimits : KeepsLimits limit_firmware
limit_firmware-KeepsLimits = record {
  present = refl;
  word = word_limit;
  put = put_limit;
  answers = limit_answers;
  accepts = limit_accepts;
  changed = limit_changed;
  left_alone = limit_left_alone;
}

abbrev clamping : ModelConfig
clamping = record model_v0 { access_method_powerlimits = wmi3_clamped }

abbrev forty : Parsed
forty = record { as_unsigned = ok 40; as_int = ok (pos 40); as_decimal = ok (pos 40) }

-- A short-term limit of 40 moves the long-term limit of 60 down.
coupled_limits_ordered_example :
    let law = limit_firmware-KeepsLimits in
    let s = state_of {F = ℕ × ℕ} (60, 90) in
    let (r, t) = cpu_limit_store limit_firmware clamping (λ v d. 0) [] [] shortterm forty s in
    let old = limit limit_firmware law longterm s in
    (r ≡ ok tt)
    × (limit limit_firmware law shortterm t ≡ pos 40)
    × (limit limit_firmware law longterm t
        ≡ (if exceeds_of shortterm old (pos 40) then pos 40 else old))
    × (limit limit_firmware law longterm t ≤ℤ limit limit_firmware law shortterm t)
unfolding clamped_value find_first capdata_clamp
coupled_limits_ordered_example =
    coupled_limits_ordered limit_firmware clamping (λ v d. 0) [] [] limit_firmware-KeepsLimits
      shortterm forty (state_of (60, 90)) (pos 40) refl refl refl (omega arith)

abbrev pairs : ℕ → Option Block
pairs i = some (two_integers (i * 65536) i)

collected_sizes_example :
    Replaced true
      (pos 100)
      (λ l. (length l ≤ 80) × (length l ≤ 100))
      []
      (collect_capdata true (pos 100) pairs [])
    × Replaced true (pos 9) IsFeatures [] (collect_features true (pos 9) pairs [])
collected_sizes_example = collected_sizes true true (pos 100) (pos 9) pairs pairs [] []

eighth_feature_single_example : last_count 0 (collect_features true (pos 9) pairs []) ≡ 1
unfolding collect_features collect pair_of group add_entry add_value
eighth_feature_single_example = eighth_feature_single (pos 9) pairs [] (λ e. ground arith) refl

-- What is stored of bytes that are set.
abbrev stored : ℕ → List ℕ → Option (List ℕ × ℕ)
stored a [] = none
stored a (b ∷ bytes) = some (b ∷ bytes, a)

-- EFI services over one variable, which is deleted when it is set to no bytes or without attributes.
abbrev variable : EfiServices (Option (List ℕ × ℕ))
variable = record {
  get_variable = λ e. e;
  set_variable = λ a bytes e. (true, if a == 0 then none else stored a bytes);
}

stored_lem : (bytes : List ℕ) → length bytes ≡ 4 → stored 7 bytes ≡ some (bytes, 7)
stored_lem [] h = absurd (omega (arith, h))
stored_lem (b ∷ bytes) h = refl

flip_to_start_round_trip_example :
    let (r, e) = flip_to_start_store variable (ok true) (some (0 ∷ 5 ∷ 6 ∷ 7 ∷ [], 7)) in
    (r ≡ ok tt)
    × (flip_to_start_show variable e ≡ ok true)
    × (variable.get_variable e ≡ some (flipped true (0 ∷ 5 ∷ 6 ∷ 7 ∷ []), 7))
flip_to_start_round_trip_example =
    flip_to_start_round_trip variable true (some (0 ∷ 5 ∷ 6 ∷ 7 ∷ [], 7)) (0 ∷ 5 ∷ 6 ∷ 7 ∷ [])
      (record { kept = λ bytes e four s. stored_lem bytes four }) refl refl

-- A mapping of three bytes.
abbrev mapped_bytes : MemoryIo
mapped_bytes = record { virtual_start = λ i. 10 + i; physical_ec_start = 0; size = 3 }

ecmemoryram_complete_example :
    (debugfs_ecmemoryram_show mapped_bytes (record model_v0 { ramio_size = 3 })
      ≡ ok (10 ∷ 11 ∷ 12 ∷ []))
    × (length {A = ℕ} (10 ∷ 11 ∷ 12 ∷ []) ≡ 3)
ecmemoryram_complete_example =
    ecmemoryram_complete mapped_bytes (record model_v0 { ramio_size = 3 }) refl refl
