-- ===== src/FanCurve/Layout/Ideapad.antt =====
-- The layout of `ec_read_fancurve_ideapad` and `ec_write_fancurve_ideapad`: eight entries, a row of
-- cells per field, the temperatures twice.
pub mod RoundTrip
use sc_control.Base.{ℕ, ◌+◌, Bool, List, [], ◌∷◌, ◌++◌, min, get_or}
use sc_control.Ec.{Ram, ecram_read}
use sc_control.Ec.Writes.{write_all}
use sc_control.Model.Registers.{EcRegisterOffsets}
use sc_control.FanCurve.{FanCurve, FanCurvePoint, rpm_hundred, fancurve_point_zero, point_at}
use sc_control.FanCurve.Layout.{loop_writes, loop_points}

unfoldable pub read_point : Ram → EcRegisterOffsets → ℕ → FanCurvePoint
read_point ram r i = record fancurve_point_zero {
  speed1 = ecram_read ram (r.ext_fan1_base + i);
  speed2 = ecram_read ram (r.ext_fan2_base + i);
  cpu_max_temp_celsius = ecram_read ram (r.ext_cpu_temp + i);
  cpu_min_temp_celsius = ecram_read ram (r.ext_cpu_temp_hyst + i);
  gpu_max_temp_celsius = ecram_read ram (r.ext_gpu_temp + i);
  gpu_min_temp_celsius = ecram_read ram (r.ext_gpu_temp_hyst + i);
}

-- `ec_read_fancurve_ideapad`, from what the curve held before: the entries 8 and 9 stay.
unfoldable pub ec_read_fancurve_ideapad : Ram → EcRegisterOffsets → FanCurve → FanCurve
unfolding read_point
ec_read_fancurve_ideapad ram r before = record before {
  points = loop_points (read_point ram r) 0 8 ++ (point_at before 8 ∷ point_at before 9 ∷ []);
  fan_speed_unit = rpm_hundred;
  size = 8;
  current_point_i = min (ecram_read ram r.ext_fan_cur_point) 8;
}

-- The writes of one entry; the reads between them are only printed.
unfoldable pub point_cells : EcRegisterOffsets → ℕ → FanCurvePoint → List (ℕ × ℕ)
point_cells r i p =
    (r.ext_fan1_base + i, p.speed1)
    ∷ (r.ext_fan2_base + i, p.speed2)
    ∷ (r.ext_cpu_temp + i, p.cpu_max_temp_celsius)
    ∷ (r.ext_cpu_temp + 8 + i, p.cpu_max_temp_celsius)
    ∷ (r.ext_cpu_temp_hyst + i, p.cpu_min_temp_celsius)
    ∷ (r.ext_cpu_temp_hyst + 8 + i, p.cpu_min_temp_celsius)
    ∷ (r.ext_gpu_temp + i, p.gpu_max_temp_celsius)
    ∷ (r.ext_gpu_temp + 8 + i, p.gpu_max_temp_celsius)
    ∷ (r.ext_gpu_temp_hyst + i, p.gpu_min_temp_celsius)
    ∷ (r.ext_gpu_temp_hyst + 8 + i, p.gpu_min_temp_celsius)
    ∷ []

unfoldable pub ideapad_writes : EcRegisterOffsets → FanCurve → List (ℕ × ℕ)
unfolding point_cells
ideapad_writes r c =
    (0xc5fe, 0) ∷ (0xc5ff, 0) ∷ loop_writes (λ i. point_cells r i (point_at c i)) 0 8

-- `ec_write_fancurve_ideapad`
unfoldable pub ec_write_fancurve_ideapad : Bool → Ram → EcRegisterOffsets → FanCurve → Ram
unfolding ideapad_writes
ec_write_fancurve_ideapad ro ram r c = write_all ro ram (ideapad_writes r c)
