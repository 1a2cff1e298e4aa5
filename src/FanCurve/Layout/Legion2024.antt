-- ===== src/FanCurve/Layout/Legion2024.antt =====
-- The layout of `ec_read_fancurve_legion2024` and `ec_write_fancurve_legion2024`: three bytes per
-- entry, once for each fan, at fixed addresses.
use sc_control.Base.{ℕ, ◌+◌, ◌*◌, ◌≡◌, refl, ap, true, false, Bool, List, [], ◌∷◌, arith, u8}
use sc_control.Ec.{Ram, ecram_read}
use sc_control.Ec.Writes.{write_all, addresses, distinct, Holds, write_all-Holds}
use sc_control.FanCurve.{
  FanCurve, FanCurvePoint, IsPoint, IsCurve, rpm_hundred, fancurve_point_zero, point_at,
}
use sc_control.FanCurve.Bounds.{point_at-IsPoint}
use sc_control.FanCurve.Layout.{loop_writes, loop_points, loop_points_of_Holds}

abbrev ec4_fan1_base : ℕ
ec4_fan1_base = 0xc50a

abbrev ec4_fan2_base : ℕ
ec4_fan2_base = 0xc531

-- `u8 off = EC4_POINT_STRIDE * i`
abbrev offset : ℕ → ℕ
offset i = u8 (3 * i)

unfoldable pub read_point : Ram → ℕ → FanCurvePoint
read_point ram i = record fancurve_point_zero {
  cpu_max_temp_celsius = ecram_read ram (ec4_fan1_base + offset i);
  gpu_max_temp_celsius = ecram_read ram (ec4_fan1_base + offset i + 1);
  speed1 = ecram_read ram (ec4_fan1_base + offset i + 2);
  speed2 = ecram_read ram (ec4_fan2_base + offset i + 2);
}

-- `ec_read_fancurve_legion2024`, from what the curve held before.
unfoldable pub ec_read_fancurve_legion2024 : Ram → FanCurve → FanCurve
unfolding read_point
ec_read_fancurve_legion2024 ram before = record before {
  points = loop_points (read_point ram) 0 10;
  fan_speed_unit = rpm_hundred;
  size = 10;
  current_point_i = 0;
}

pub point_cells : ℕ → FanCurvePoint → List (ℕ × ℕ)
point_cells i p =
    (ec4_fan1_base + offset i, p.cpu_max_temp_celsius)
    ∷ (ec4_fan1_base + offset i + 1, p.gpu_max_temp_celsius)
    ∷ (ec4_fan1_base + offset i + 2, p.speed1)
    ∷ (ec4_fan2_base + offset i, p.cpu_max_temp_celsius)
    ∷ (ec4_fan2_base + offset i + 1, p.gpu_max_temp_celsius)
    ∷ (ec4_fan2_base + offset i + 2, p.speed2)
    ∷ []

-- `ec_write_fancurve_legion2024`
unfoldable pub ec_write_fancurve_legion2024 : Bool → Ram → FanCurve → Ram
unfolding point_cells
ec_write_fancurve_legion2024 ro ram c =
    write_all ro ram (loop_writes (λ i. point_cells i (point_at c i)) 0 10)

-- What the layout keeps of an entry: the speeds and the upper CPU and GPU temperatures.
abbrev pub kept_point : FanCurvePoint → FanCurvePoint
kept_point p = record fancurve_point_zero {
  speed1 = p.speed1;
  speed2 = p.speed2;
  cpu_max_temp_celsius = p.cpu_max_temp_celsius;
  gpu_max_temp_celsius = p.gpu_max_temp_celsius;
}

cells_distinct :
    (c : FanCurve)
    → distinct (addresses (loop_writes (λ i. point_cells i (point_at c i)) 0 10)) ≡ true
unfolding loop_writes point_cells distinct
cells_distinct c = refl

read_point-point_cells :
    (ram : Ram) (i : ℕ) (p : FanCurvePoint)
    → IsPoint p
    → Holds ram (point_cells i p)
    → read_point ram i ≡ kept_point p
unfolding read_point point_cells
read_point-point_cells ram i p v h = ground arith

-- `ec_read_fancurve_legion2024` after `ec_write_fancurve_legion2024` reads the speeds and the upper
-- CPU and GPU temperatures of all ten points as written, and zero for the other fields.
pub legion2024_round_trip :
    (ram : Ram) (c before : FanCurve)
    → IsCurve c
    → ec_read_fancurve_legion2024 (ec_write_fancurve_legion2024 false ram c) before
      ≡ record before {
        points = loop_points (λ i. kept_point (point_at c i)) 0 10;
        fan_speed_unit = rpm_hundred;
        size = 10;
        current_point_i = 0;
      }
unfolding ec_read_fancurve_legion2024 ec_write_fancurve_legion2024
legion2024_round_trip ram c before v =
    let cells : ℕ → List (ℕ × ℕ) = λ i. point_cells i (point_at c i) in
    let after : Ram = write_all false ram (loop_writes cells 0 10) in
    ap
      (λ ps. record before {
        points = ps;
        fan_speed_unit = rpm_hundred;
        size = 10;
        current_point_i = 0;
      })
      (loop_points_of_Holds after cells (read_point after) (λ i. kept_point (point_at c i))
        (λ j h. read_point-point_cells after j (point_at c j) (point_at-IsPoint j v) h) 0 10
        (write_all-Holds ram (loop_writes cells 0 10) (cells_distinct c)))
