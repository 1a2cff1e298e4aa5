-- ===== src/FanCurve/Layout/Legion/RoundTrip.antt =====
-- What is read back after `ec_write_fancurve_legion`.
use sc_control.Base.{
  ℕ, ◌≡◌, refl, ◌∙◌, ap, Bool, true, false, List, [], ◌∷◌, ◌++◌, arith, ltb, if◌then◌else◌, u8, min,
  All-append,
}
use sc_control.Ec.{Ram, ecram_read}
use sc_control.Ec.Writes.{addresses, avoids, distinct, Holds, write_all-Holds, write_all_frame}
use sc_control.Model.Registers.{EcRegisterOffsets}
use sc_control.FanCurve.{
  FanCurve, FanCurvePoint, IsPoint, IsCurve, rpm_hundred, fancurve_point_zero,
}
use sc_control.FanCurve.Bounds.{point_at-IsPoint}
use sc_control.FanCurve.Layout.{loop_writes, loop_points, loop_points_of_Holds}
use sc_control.FanCurve.Layout.Legion.{
  read_point, ec_read_fancurve_legion, point_cells, written_point, legion_writes,
  ec_write_fancurve_legion,
}

abbrev pub blank : FanCurve
blank = record {
  points = [];
  fan_speed_unit = rpm_hundred;
  max_rpm = 0;
  size = 0;
  current_point_i = 0;
}

-- The addresses that `ec_write_fancurve_legion` writes, in order.
unfoldable pub legion_addresses : EcRegisterOffsets → Bool → List ℕ
unfolding legion_writes loop_writes
legion_addresses r write_size =
    addresses ((0xc5fe, 0) ∷ (0xc5ff, 0) ∷ legion_writes r blank write_size)

legion_addresses_lem :
    (r : EcRegisterOffsets) (c : FanCurve) (b : Bool)
    → addresses ((0xc5fe, 0) ∷ (0xc5ff, 0) ∷ legion_writes r c b) ≡ legion_addresses r b
unfolding legion_addresses
legion_addresses_lem r c true = refl
legion_addresses_lem r c false = refl

read_point-point_cells :
    (ram : Ram) (r : EcRegisterOffsets) (i : ℕ) (p : FanCurvePoint)
    → IsPoint p
    → Holds ram (point_cells r i p)
    → read_point ram r i ≡ p
unfolding read_point point_cells
read_point-point_cells ram r i p v h = ground arith

zero-IsPoint : IsPoint fancurve_point_zero
zero-IsPoint = omega arith

choose-IsPoint :
    (b : Bool) (p q : FanCurvePoint) → IsPoint p → IsPoint q → IsPoint (if b then p else q)
choose-IsPoint true p q v w = v
choose-IsPoint false p q v w = w

written_point-IsPoint : (c : FanCurve) (i : ℕ) → IsCurve c → IsPoint (written_point c i)
written_point-IsPoint c i v = choose-IsPoint (ltb i c.size) _ _ (point_at-IsPoint i v) zero-IsPoint

-- The reset of the current point, and the size where it is written.
abbrev tail_writes : EcRegisterOffsets → FanCurve → Bool → List (ℕ × ℕ)
tail_writes r c b =
    (if b then (r.ext_fan_points_size, c.size) ∷ [] else [])
    ++ ((r.ext_fan_cur_point, 0) ∷ (0xc634, 0) ∷ (0xc635, 0) ∷ (0xc636, 0) ∷ [])

module _ (ram : Ram) (r : EcRegisterOffsets) (c : FanCurve) (b : Bool) where
  abbrev after : Ram
  after = ec_write_fancurve_legion false ram r c b

  abbrev cells : ℕ → List (ℕ × ℕ)
  cells i = point_cells r i (written_point c i)

  all_hold :
      distinct (legion_addresses r b) ≡ true
      → Holds after (loop_writes cells 0 10) × Holds after (tail_writes r c b)
  unfolding ec_write_fancurve_legion
  all_hold h =
      let ws =
        write_all-Holds ram ((0xc5fe, 0) ∷ (0xc5ff, 0) ∷ legion_writes r c b)
          (ap distinct (legion_addresses_lem r c b) ∙ h) in
      All-append (λ w. ecram_read after w.0 ≡ u8 w.1) (loop_writes cells 0 10) _ ws.1.1

-- The size that the EC holds afterwards: the written one, or else the old one within its bound.
pub size_after :
    (ram : Ram) (r : EcRegisterOffsets) (c : FanCurve) (b : Bool)
    → IsCurve c
    → distinct (legion_addresses r b) ≡ true
    → avoids r.ext_fan_points_size (legion_addresses r false) ≡ true
    → min (ecram_read (after ram r c b) r.ext_fan_points_size) 10
      ≡ (if b then c.size else min (ecram_read ram r.ext_fan_points_size) 10)
unfolding ec_write_fancurve_legion
size_after ram r c true v d a = omega (arith, (all_hold ram r c true d).1.0)
size_after ram r c false v d a = ap (λ n. min n 10) frame
  where
    frame :
        ecram_read (after ram r c false) r.ext_fan_points_size
        ≡ ecram_read ram r.ext_fan_points_size
    frame =
        write_all_frame false ram ((0xc5fe, 0) ∷ (0xc5ff, 0) ∷ legion_writes r c false)
          r.ext_fan_points_size
          (ap (avoids r.ext_fan_points_size) (legion_addresses_lem r c false) ∙ a)

cur_point_after :
    (ram : Ram) (r : EcRegisterOffsets) (c : FanCurve) (b : Bool)
    → distinct (legion_addresses r b) ≡ true
    → ecram_read (after ram r c b) r.ext_fan_cur_point ≡ 0
cur_point_after ram r c true d = (all_hold ram r c true d).1.1.0
cur_point_after ram r c false d = (all_hold ram r c false d).1.0

-- At distinct addresses, `ec_read_fancurve_legion` after `ec_write_fancurve_legion` reads every point
-- below the size as written, zero points past it, the size written (or, where the size is not
-- written, the EC's old size within 10), and the current point 0.
pub legion_round_trip :
    (ram : Ram) (r : EcRegisterOffsets) (c before : FanCurve) (b : Bool)
    → IsCurve c
    → distinct (legion_addresses r b) ≡ true
    → avoids r.ext_fan_points_size (legion_addresses r false) ≡ true
    → ec_read_fancurve_legion (ec_write_fancurve_legion false ram r c b) r before ≡ record before {
      points = loop_points (written_point c) 0 10;
      fan_speed_unit = rpm_hundred;
      size = if b then c.size else min (ecram_read ram r.ext_fan_points_size) 10;
      current_point_i = 0;
    }
unfolding ec_read_fancurve_legion ec_write_fancurve_legion
legion_round_trip ram r c before b v d a = ground (
  arith,
  size_after ram r c b v d a,
  cur_point_after ram r c b d,
  loop_points_of_Holds (after ram r c b) (cells ram r c b) (read_point (after ram r c b) r)
      (written_point c)
      (λ (j : ℕ) (h : Holds (after ram r c b) (cells ram r c b j)).
        read_point-point_cells (after ram r c b) r j (written_point c j)
          (written_point-IsPoint c j v) h)
      0 10 (all_hold ram r c b d).0,
)
