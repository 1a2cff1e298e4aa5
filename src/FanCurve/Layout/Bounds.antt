-- ===== src/FanCurve/Layout/Bounds.antt =====
-- The curves that the four layouts read are well formed, and their writes keep the RAM one of bytes.
use sc_control.Base.{
  All-get_or, ℕ, zero, suc, ◌+◌, ◌<◌, Bool, List, [], ◌∷◌, ◌++◌, arith, All, length-append,
}
use sc_control.Ec.{Ram, ecram_read}
use sc_control.Ec.Bytes.{IsRam, ecram_write-IsRam, write_all-IsRam}
use sc_control.Model.Registers.{EcRegisterOffsets}
use sc_control.Model.Config.{ModelConfig}
use sc_control.FanCurve.{
  FanCurve, FanCurvePoint, IsPoint, IsCurve, IsMemory, fancurve_point_zero, point_at,
}
use sc_control.FanCurve.Layout.{loop_points, length-loop_points}
use sc_control.FanCurve.Layout.Legion.{
  read_point as read_legion, ec_read_fancurve_legion, ec_write_fancurve_legion,
}
use sc_control.FanCurve.Layout.Ideapad.{
  read_point as read_ideapad, ec_read_fancurve_ideapad, ec_write_fancurve_ideapad,
}
use sc_control.FanCurve.Layout.Loq.{
  read_point as read_loq, ec_read_fancurve_loq, ec_write_fancurve_loq, loq_cmdr_addr, loq_writes,
}
use sc_control.Ec.Writes.{write_all}
use Prim.Native.Nat.{bit_or}
use sc_control.FanCurve.Layout.Legion2024.{
  read_point as read_legion2024, ec_read_fancurve_legion2024, ec_write_fancurve_legion2024,
}

loop_points-All :
    (f : ℕ → FanCurvePoint)
    → ((i : ℕ) → IsPoint (f i))
    → (i n : ℕ) → All IsPoint (loop_points f i n)
unfolding loop_points
loop_points-All f h i zero = tt
loop_points-All f h i (suc n) = (h i, loop_points-All f h (i + 1) n)

memory-IsPoint : {c : FanCurve} (i : ℕ) → IsMemory c → IsPoint (point_at c i)
memory-IsPoint {c} i v = All-get_or IsPoint c.points i fancurve_point_zero v.bytes (ground arith)

append-All : (xs ys : List FanCurvePoint) → All IsPoint xs → All IsPoint ys → All IsPoint (xs ++ ys)
append-All [] ys h k = k
append-All (x ∷ xs) ys h k = (h.0, append-All xs ys h.1 k)

module _ {ram : Ram} (v : IsRam ram) where
  legion-IsPoint : (r : EcRegisterOffsets) (i : ℕ) → IsPoint (read_legion ram r i)
  unfolding read_legion
  legion-IsPoint r i = record {
    speed1_byte = v.cell_byte _;
    speed2_byte = v.cell_byte _;
    accel_byte = v.cell_byte _;
    decel_byte = v.cell_byte _;
    cpu_max_byte = v.cell_byte _;
    cpu_min_byte = v.cell_byte _;
    gpu_max_byte = v.cell_byte _;
    gpu_min_byte = v.cell_byte _;
    ic_max_byte = v.cell_byte _;
    ic_min_byte = v.cell_byte _;
  }

  ideapad-IsPoint : (r : EcRegisterOffsets) (i : ℕ) → IsPoint (read_ideapad ram r i)
  unfolding read_ideapad
  ideapad-IsPoint r i = record {
    speed1_byte = v.cell_byte _;
    speed2_byte = v.cell_byte _;
    accel_byte = omega arith;
    decel_byte = omega arith;
    cpu_max_byte = v.cell_byte _;
    cpu_min_byte = v.cell_byte _;
    gpu_max_byte = v.cell_byte _;
    gpu_min_byte = v.cell_byte _;
    ic_max_byte = omega arith;
    ic_min_byte = omega arith;
  }

  loq-IsPoint : (r : EcRegisterOffsets) (i : ℕ) → IsPoint (read_loq ram r i)
  unfolding read_loq
  loq-IsPoint r i = record {
    speed1_byte = v.cell_byte _;
    speed2_byte = v.cell_byte _;
    accel_byte = omega arith;
    decel_byte = omega arith;
    cpu_max_byte = v.cell_byte _;
    cpu_min_byte = v.cell_byte _;
    gpu_max_byte = v.cell_byte _;
    gpu_min_byte = v.cell_byte _;
    ic_max_byte = v.cell_byte _;
    ic_min_byte = v.cell_byte _;
  }

  legion2024-IsPoint : (i : ℕ) → IsPoint (read_legion2024 ram i)
  unfolding read_legion2024
  legion2024-IsPoint i = record {
    speed1_byte = v.cell_byte _;
    speed2_byte = v.cell_byte _;
    accel_byte = omega arith;
    decel_byte = omega arith;
    cpu_max_byte = v.cell_byte _;
    cpu_min_byte = omega arith;
    gpu_max_byte = v.cell_byte _;
    gpu_min_byte = omega arith;
    ic_max_byte = omega arith;
    ic_min_byte = omega arith;
  }

  pub read_legion-IsCurve :
      (r : EcRegisterOffsets) {before : FanCurve}
      → IsMemory before
      → IsCurve (ec_read_fancurve_legion ram r before)
  unfolding ec_read_fancurve_legion
  read_legion-IsCurve r w = record {
    entries = length-loop_points _ 0 10;
    bytes = loop_points-All _ (legion-IsPoint r) 0 10;
    fits = omega arith;
    rpm_word = w.rpm_word;
  }

  pub read_ideapad-IsCurve :
      (r : EcRegisterOffsets) {before : FanCurve}
      → IsMemory before
      → IsCurve (ec_read_fancurve_ideapad ram r before)
  unfolding ec_read_fancurve_ideapad
  read_ideapad-IsCurve r {before} w = record {
    entries = omega (
      arith,
      length-append (loop_points (read_ideapad ram r) 0 8)
          (point_at before 8 ∷ point_at before 9 ∷ []),
      length-loop_points (read_ideapad ram r) 0 8,
    );
    bytes =
        append-All _ _ (loop_points-All _ (ideapad-IsPoint r) 0 8)
          (memory-IsPoint 8 w, (memory-IsPoint 9 w, tt));
    fits = omega arith;
    rpm_word = w.rpm_word;
  }

  pub read_loq-IsCurve :
      (model : ModelConfig) → model.fan_max_rpm < 65536 → IsCurve (ec_read_fancurve_loq ram model)
  unfolding ec_read_fancurve_loq
  read_loq-IsCurve model w = record {
    entries = length-loop_points _ 0 10;
    bytes = loop_points-All _ (loq-IsPoint model.registers) 0 10;
    fits = omega arith;
    rpm_word = w;
  }

  pub read_legion2024-IsCurve :
      {before : FanCurve} → IsMemory before → IsCurve (ec_read_fancurve_legion2024 ram before)
  unfolding ec_read_fancurve_legion2024
  read_legion2024-IsCurve w = record {
    entries = length-loop_points _ 0 10;
    bytes = loop_points-All _ legion2024-IsPoint 0 10;
    fits = omega arith;
    rpm_word = w.rpm_word;
  }

  module _ (ro : Bool) (r : EcRegisterOffsets) (c : FanCurve) where
    pub write_legion-IsRam : (b : Bool) → IsRam (ec_write_fancurve_legion ro ram r c b)
    unfolding ec_write_fancurve_legion
    write_legion-IsRam b = write_all-IsRam ro _ v

    pub write_ideapad-IsRam : IsRam (ec_write_fancurve_ideapad ro ram r c)
    unfolding ec_write_fancurve_ideapad
    write_ideapad-IsRam = write_all-IsRam ro _ v

    pub write_loq-IsRam : IsRam (ec_write_fancurve_loq ro ram r c)
    unfolding ec_write_fancurve_loq
    write_loq-IsRam =
        let table = write_all ro ram (loq_writes r c) in
        ecram_write-IsRam ro loq_cmdr_addr (bit_or (ecram_read table loq_cmdr_addr) 16)
          (write_all-IsRam ro _ v)

    pub write_legion2024-IsRam : IsRam (ec_write_fancurve_legion2024 ro ram c)
    unfolding ec_write_fancurve_legion2024
    write_legion2024-IsRam = write_all-IsRam ro _ v
