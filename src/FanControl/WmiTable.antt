-- ===== src/FanControl/WmiTable.antt =====
-- The fan table of the WMI fan method: `wmi_read_fancurve_custom`, `wmi_write_fancurve_custom` and
-- `wmi_write_fancurve_defaults`.
pub mod Laws
use sc_control.Base.{
  ℕ, zero, suc, ◌+◌, ◌*◌, ◌-◌, Bool, true, false, List, [], ◌∷◌, ◌==◌, ◌&&◌, ltb, leb,
  if◌then◌else◌, u8, min, get_or, set, ℤ, byte_of,
}
use sc_control.Errno.{Result, ok, err, eio, eperm, erange}
use sc_control.Model.Config.{ModelConfig}
use sc_control.Model.Configs.{model_n2cn, model_secn}
use sc_control.Firmware.State.{Firmware, State, M, pure, fail, ◌>>=◌}
use sc_control.Firmware.Wmi.{wmi_exec_ints, wmi_exec_arg}
use sc_control.FanCurve.{
  FanCurve, FanCurvePoint, FanSpeedUnit, percent, rpm_hundred, percent_nearest, fancurve_point_zero,
  point_at, max_fancurve_size,
}
use sc_control.FanControl.FullSpeed.{fan_method_guid}

-- A pointer comparison of configurations.
abbrev pub is_model : ModelConfig → ModelConfig → Bool
is_model a b = a.address == b.address

abbrev byte_at : List ℕ → ℕ → ℕ
byte_at bytes i = u8 (get_or bytes i 0)

-- `le32_to_cpu` of the four bytes from `i` on.
abbrev pub word_at : List ℕ → ℕ → ℕ
word_at bytes i =
    byte_at bytes i
    + 256 * byte_at bytes (i + 1)
    + 65536 * byte_at bytes (i + 2)
    + 16777216 * byte_at bytes (i + 3)

-- `fan_table.fan_speed[i]`, after the length.
abbrev pub table_speed : List ℕ → ℕ → ℕ
table_speed bytes i = word_at bytes (4 + 4 * i)

abbrev pub cons_point : FanCurvePoint → Result (List FanCurvePoint) → Result (List FanCurvePoint)
cons_point p (ok ps) = ok (p ∷ ps)
cons_point p (err e) = err e

-- The entries from `i` on: `n` of the table, then `rest` that stay zero.
unfoldable pub table_points : List ℕ → ℕ → ℕ → ℕ → Result (List FanCurvePoint)
table_points bytes i zero zero = ok []
table_points bytes i zero (suc rest) =
    cons_point fancurve_point_zero (table_points bytes i zero rest)
table_points bytes i (suc n) rest =
    let tail = table_points bytes (i + 1) n rest in
    if ltb 255 (table_speed bytes i)
    then err erange
    else cons_point (record fancurve_point_zero { speed1 = table_speed bytes i }) tail

abbrev pub table_unit : ModelConfig → FanSpeedUnit
table_unit model =
    if is_model model model_n2cn
    then percent_nearest
    else if is_model model model_secn
    then rpm_hundred
    else percent

abbrev pub table_size : ModelConfig → List ℕ → ℕ
table_size model bytes =
    if is_model model model_n2cn then min (word_at bytes 0) max_fancurve_size else max_fancurve_size

abbrev pub table_curve : ModelConfig → ℕ → Result (List FanCurvePoint) → Result FanCurve
table_curve model size (err e) = err e
table_curve model size (ok points) = ok record {
  points = points;
  fan_speed_unit = table_unit model;
  max_rpm = 0;
  size = size;
  current_point_i = 0;
}

-- The curve of the bytes that the firmware returned.
unfoldable pub parse_table : ModelConfig → List ℕ → Result FanCurve
unfolding table_points
parse_table model bytes =
    let size = table_size model bytes in
    if size == 0
    then err eio
    else table_curve model size (table_points bytes 0 size (max_fancurve_size - size))

-- The buffer with the first speeds of the entries from `i` on, two bytes apart.
unfoldable pub put_speeds : FanCurve → ℕ → ℕ → List ℕ → List ℕ
put_speeds c i zero buffer = buffer
put_speeds c i (suc n) buffer =
    put_speeds c (i + 1) n (set buffer (6 + 2 * i) (point_at c i).speed1)

abbrev pub zeros : ℕ → List ℕ
zeros zero = []
zeros (suc n) = 0 ∷ zeros n

-- The comparison of the entries from `i` on.
unfoldable pub same_speeds : FanCurve → FanCurve → ℕ → ℕ → Bool
same_speeds a b i zero = true
same_speeds a b i (suc n) =
    ((point_at a i).speed1 == (point_at b i).speed1) && same_speeds a b (i + 1) n

-- What follows the firmware's answer to a read.
unfoldable pub parse_answer :
    {F : Type 0} → ModelConfig → Result (List ℕ) × State F → Result FanCurve × State F
parse_answer model (ok bytes, s) = (parse_table model bytes, s)
parse_answer model (err e, s) = (err e, s)

-- The verdict on a readback.
unfoldable pub compare :
    {F : Type 0} → FanCurve → Result FanCurve × State F → Result (Unit {0}) × State F
unfolding same_speeds
compare c (ok readback, s) =
    (if same_speeds readback c 0 max_fancurve_size then ok tt else err eio, s)
compare c (err e, s) = (err e, s)

-- The readback of a table that was taken, on the one model.
unfoldable pub verified :
    {F : Type 0}
    → (State F → Result (Unit {0}) × State F)
    → Bool
    → Result (Unit {0}) × State F
    → Result (Unit {0}) × State F
verified readback true (ok _, s) = readback s
verified readback false (ok _, s) = (ok tt, s)
verified readback _ (err e, s) = (err e, s)

-- The bytes of the table of the defaults: the mode, then the index points 1 to 10 as u16.
abbrev pub defaults_table : ℤ → List ℕ
defaults_table value =
    byte_of value
    ∷ 0
    ∷ 0
    ∷ 0
    ∷ 0
    ∷ 0
    ∷ 1
    ∷ 0
    ∷ 2
    ∷ 0
    ∷ 3
    ∷ 0
    ∷ 4
    ∷ 0
    ∷ 5
    ∷ 0
    ∷ 6
    ∷ 0
    ∷ 7
    ∷ 0
    ∷ 8
    ∷ 0
    ∷ 9
    ∷ 0
    ∷ 10
    ∷ 0
    ∷ zeros 26

module _ {F : Type 0} (fw : Firmware F) (model : ModelConfig) where
  -- `wmi_read_fancurve_custom`
  unfoldable pub wmi_read_fancurve_custom : M F FanCurve
  wmi_read_fancurve_custom s =
      parse_answer model (wmi_exec_ints fw fan_method_guid 0 5 (0 ∷ 0 ∷ []) 88 s)

  -- The call that hands the table to the firmware.
  unfoldable pub send_table : FanCurve → M F (Unit {0})
  send_table c = wmi_exec_arg fw fan_method_guid 0 6 (put_speeds c 0 10 (zeros 64))

  -- `wmi_write_fancurve_custom`
  unfoldable pub wmi_write_fancurve_custom : FanCurve → M F (Unit {0})
  wmi_write_fancurve_custom c s =
      verified (λ t. compare c (wmi_read_fancurve_custom t)) (is_model model model_n2cn)
        (send_table c s)

  -- `wmi_write_fancurve_defaults`; the code -1 is that of eperm.
  unfoldable pub wmi_write_fancurve_defaults : ℤ → M F (Unit {0})
  wmi_write_fancurve_defaults value =
      if model.has_fancurve_defaults
      then wmi_exec_arg fw fan_method_guid 0 6 (defaults_table value)
      else fail eperm
