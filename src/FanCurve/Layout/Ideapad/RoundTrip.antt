-- ===== src/FanCurve/Layout/Ideapad/RoundTrip.antt =====
-- What is read back after `ec_write_fancurve_ideapad`.
use sc_control.Base.{ℕ, ◌≡◌, refl, ap, ◌∙◌, true, false, List, [], ◌∷◌, ◌++◌, arith, min}
use sc_control.Ec.{Ram, ecram_read}
use sc_control.Ec.Writes.{addresses, distinct, Holds, write_all-Holds}
use sc_control.Model.Registers.{EcRegisterOffsets}
use sc_control.FanCurve.{FanCurve, FanCurvePoint, IsPoint, IsCurve, rpm_hundred, point_at}
use sc_control.FanCurve.Bounds.{point_at-IsPoint}
use sc_control.FanCurve.Layout.{loop_writes, loop_points, loop_points_of_Holds}
use sc_control.FanCurve.Layout.Legion.RoundTrip.{blank}
use sc_control.FanCurve.Layout.Ideapad.{
  read_point, ec_read_fancurve_ideapad, point_cells, ideapad_writes, ec_write_fancurve_ideapad,
}

-- The addresses that `ec_write_fancurve_ideapad` writes, in order.
unfoldable pub ideapad_addresses : EcRegisterOffsets → List ℕ
unfolding ideapad_writes loop_writes
ideapad_addresses r = addresses (ideapad_writes r blank)

ideapad_addresses_lem :
    (r : EcRegisterOffsets) (c : FanCurve) → addresses (ideapad_writes r c) ≡ ideapad_addresses r
unfolding ideapad_addresses
ideapad_addresses_lem r c = refl

-- What the layout keeps of an entry: the speeds and the CPU and GPU temperatures.
abbrev pub kept_point : FanCurvePoint → FanCurvePoint
kept_point p = record p { accel = 0; decel = 0; ic_max_temp_celsius = 0; ic_min_temp_celsius = 0 }

read_point-point_cells :
    (ram : Ram) (r : EcRegisterOffsets) (i : ℕ) (p : FanCurvePoint)
    → IsPoint p
    → Holds ram (point_cells r i p)
    → read_point ram r i ≡ kept_point p
unfolding read_point point_cells
read_point-point_cells ram r i p v h = ground arith

-- At distinct addresses, `ec_read_fancurve_ideapad` after `ec_write_fancurve_ideapad` reads the speeds
-- and the CPU and GPU temperatures of the first eight points as written and zero for their other
-- fields; entries 8 and 9 keep what the caller's curve held.
pub ideapad_round_trip :
    (ram : Ram) (r : EcRegisterOffsets) (c before : FanCurve)
    → IsCurve c
    → distinct (ideapad_addresses r) ≡ true
    → let after = ec_write_fancurve_ideapad false ram r c in
      ec_read_fancurve_ideapad after r before ≡ record before {
        points =
            loop_points (λ i. kept_point (point_at c i)) 0 8
            ++ (point_at before 8 ∷ point_at before 9 ∷ []);
        fan_speed_unit = rpm_hundred;
        size = 8;
        current_point_i = min (ecram_read after r.ext_fan_cur_point) 8;
      }
unfolding ec_read_fancurve_ideapad ec_write_fancurve_ideapad
ideapad_round_trip ram r c before v d =
    let after = ec_write_fancurve_ideapad false ram r c in
    let cells : ℕ → List (ℕ × ℕ) = λ i. point_cells r i (point_at c i) in
    let holds =
      write_all-Holds ram (ideapad_writes r c) (ap distinct (ideapad_addresses_lem r c) ∙ d) in
    ap
      (λ ps. record before {
        points = ps ++ (point_at before 8 ∷ point_at before 9 ∷ []);
        fan_speed_unit = rpm_hundred;
        size = 8;
        current_point_i = min (ecram_read after r.ext_fan_cur_point) 8;
      })
      (loop_points_of_Holds after cells (read_point after r) (λ i. kept_point (point_at c i))
        (λ j h. read_point-point_cells after r j (point_at c j) (point_at-IsPoint j v) h) 0 8
        holds.1.1)
