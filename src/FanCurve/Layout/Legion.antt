-- ===== src/FanCurve/Layout/Legion.antt =====
-- The layout of `ec_read_fancurve_legion` and `ec_write_fancurve_legion`: a row of cells per field.
pub mod RoundTrip
use sc_control.Base.{
  ℕ, ◌+◌, ◌<◌, ◌≡◌, refl, Bool, true, false, List, [], ◌∷◌, ◌++◌, arith, ltb, if◌then◌else◌, u8,
  min, length,
}
use sc_control.Ec.{Ram, ecram_read}
use sc_control.Ec.Writes.{write_all, addresses, distinct, Holds, write_all-Holds}
use sc_control.Model.Registers.{EcRegisterOffsets}
use sc_control.FanCurve.{
  FanCurve, FanCurvePoint, IsPoint, IsCurve, rpm_hundred, fancurve_point_zero, point_at,
}
use sc_control.FanCurve.Layout.{loop_writes, loop_points, loop_points_of_Holds}

-- One round of the reading loop.
unfoldable pub read_point : Ram → EcRegisterOffsets → ℕ → FanCurvePoint
read_point ram r i = record {
  speed1 = ecram_read ram (r.ext_fan1_base + i);
  speed2 = ecram_read ram (r.ext_fan2_base + i);
  accel = ecram_read ram (r.ext_fan_acc_base + i);
  decel = ecram_read ram (r.ext_fan_dec_base + i);
  cpu_max_temp_celsius = ecram_read ram (r.ext_cpu_temp + i);
  cpu_min_temp_celsius = ecram_read ram (r.ext_cpu_temp_hyst + i);
  gpu_max_temp_celsius = ecram_read ram (r.ext_gpu_temp + i);
  gpu_min_temp_celsius = ecram_read ram (r.ext_gpu_temp_hyst + i);
  ic_max_temp_celsius = ecram_read ram (r.ext_vrm_temp + i);
  ic_min_temp_celsius = ecram_read ram (r.ext_vrm_temp_hyst + i);
}

-- `ec_read_fancurve_legion`, from what the curve held before: `max_rpm` stays.
unfoldable pub ec_read_fancurve_legion : Ram → EcRegisterOffsets → FanCurve → FanCurve
unfolding read_point
ec_read_fancurve_legion ram r before =
    let size = min (ecram_read ram r.ext_fan_points_size) 10 in
    record before {
      points = loop_points (read_point ram r) 0 10;
      fan_speed_unit = rpm_hundred;
      size = size;
      current_point_i = min (ecram_read ram r.ext_fan_cur_point) size;
    }

-- The writes of one entry, in the order of the source.
unfoldable pub point_cells : EcRegisterOffsets → ℕ → FanCurvePoint → List (ℕ × ℕ)
point_cells r i p =
    (r.ext_fan1_base + i, p.speed1)
    ∷ (r.ext_fan2_base + i, p.speed2)
    ∷ (r.ext_fan_acc_base + i, p.accel)
    ∷ (r.ext_fan_dec_base + i, p.decel)
    ∷ (r.ext_cpu_temp + i, p.cpu_max_temp_celsius)
    ∷ (r.ext_cpu_temp_hyst + i, p.cpu_min_temp_celsius)
    ∷ (r.ext_gpu_temp + i, p.gpu_max_temp_celsius)
    ∷ (r.ext_gpu_temp_hyst + i, p.gpu_min_temp_celsius)
    ∷ (r.ext_vrm_temp + i, p.ic_max_temp_celsius)
    ∷ (r.ext_vrm_temp_hyst + i, p.ic_min_temp_celsius)
    ∷ []

-- The entry that the loop writes at `i`: zero past the size.
abbrev pub written_point : FanCurve → ℕ → FanCurvePoint
written_point c i = if ltb i c.size then point_at c i else fancurve_point_zero

unfoldable pub legion_writes : EcRegisterOffsets → FanCurve → Bool → List (ℕ × ℕ)
unfolding point_cells
legion_writes r c write_size =
    loop_writes (λ i. point_cells r i (written_point c i)) 0 10
    ++ ((if write_size then (r.ext_fan_points_size, c.size) ∷ [] else [])
        ++ ((r.ext_fan_cur_point, 0) ∷ (0xc634, 0) ∷ (0xc635, 0) ∷ (0xc636, 0) ∷ []))

-- `ec_write_fancurve_legion`
unfoldable pub ec_write_fancurve_legion : Bool → Ram → EcRegisterOffsets → FanCurve → Bool → Ram
unfolding legion_writes
ec_write_fancurve_legion ro ram r c write_size =
    write_all ro ram ((0xc5fe, 0) ∷ (0xc5ff, 0) ∷ legion_writes r c write_size)
