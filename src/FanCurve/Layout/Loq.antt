-- ===== src/FanCurve/Layout/Loq.antt =====
-- The layout of `ec_read_fancurve_loq` and `ec_write_fancurve_loq`: structures of six bytes for
-- writing, other registers with structures of three bytes for reading, and a command register.
pub mod Effect
use Prim.Native.Nat.{bit_or}
use sc_control.Base.{ℕ, ◌+◌, ◌-◌, ◌*◌, Bool, List, [], ◌∷◌, min}
use sc_control.Ec.{Ram, ecram_read, ecram_write}
use sc_control.Ec.Writes.{write_all}
use sc_control.Model.Registers.{EcRegisterOffsets}
use sc_control.Model.Config.{ModelConfig}
use sc_control.FanCurve.{FanCurve, FanCurvePoint, rpm_hundred, fancurve_point_zero, point_at}
use sc_control.FanCurve.Layout.{loop_writes, loop_points}

abbrev pub loq_cmdr_addr : ℕ
loq_cmdr_addr = 0xcfb6

-- `base - k` in size_t, converted to u16 by the read.
abbrev below : ℕ → ℕ → ℕ
below base k = base + 65536 - k

unfoldable pub read_point : Ram → EcRegisterOffsets → ℕ → FanCurvePoint
read_point ram r i = record fancurve_point_zero {
  speed1 = ecram_read ram (r.ext_fan1_rpm_lsb + i * 3);
  speed2 = ecram_read ram (r.ext_fan2_rpm_lsb + i * 3);
  cpu_max_temp_celsius = ecram_read ram (below (r.ext_fan1_rpm_lsb + i * 3) 1);
  cpu_min_temp_celsius = ecram_read ram (below (r.ext_fan1_rpm_lsb + i * 3) 2);
  gpu_max_temp_celsius = ecram_read ram (below (r.ext_fan2_rpm_lsb + i * 3) 1);
  gpu_min_temp_celsius = ecram_read ram (below (r.ext_fan2_rpm_lsb + i * 3) 2);
  ic_max_temp_celsius = ecram_read ram (r.ext_vrm_temp + i * 6);
  ic_min_temp_celsius = ecram_read ram (r.ext_vrm_temp_hyst + i * 6);
}

-- `ec_read_fancurve_loq`: every field of the curve is assigned.
unfoldable pub ec_read_fancurve_loq : Ram → ModelConfig → FanCurve
unfolding read_point
ec_read_fancurve_loq ram model = record {
  points = loop_points (read_point ram model.registers) 0 10;
  fan_speed_unit = rpm_hundred;
  max_rpm = model.fan_max_rpm;
  size = 10;
  current_point_i = min (ecram_read ram model.registers.ext_fan_cur_point) 10;
}

-- The writes of one entry; the reads between them are only printed.
unfoldable pub point_cells : EcRegisterOffsets → ℕ → FanCurvePoint → List (ℕ × ℕ)
point_cells r i p =
    (r.ext_fan1_base + i * 6, p.speed1)
    ∷ (r.ext_fan2_base + i * 6, p.speed2)
    ∷ (r.ext_cpu_temp + i * 6, p.cpu_max_temp_celsius)
    ∷ (r.ext_cpu_temp_hyst + i * 6, p.cpu_min_temp_celsius)
    ∷ (r.ext_gpu_temp + i * 6, p.gpu_max_temp_celsius)
    ∷ (r.ext_gpu_temp_hyst + i * 6, p.gpu_min_temp_celsius)
    ∷ (r.ext_vrm_temp + i * 6, p.ic_max_temp_celsius)
    ∷ (r.ext_vrm_temp_hyst + i * 6, p.ic_min_temp_celsius)
    ∷ []

unfoldable pub loq_writes : EcRegisterOffsets → FanCurve → List (ℕ × ℕ)
unfolding point_cells
loq_writes r c = loop_writes (λ i. point_cells r i (point_at c i)) 0 10

-- `ec_write_fancurve_loq`: the table, then the execute bit of the command register.
unfoldable pub ec_write_fancurve_loq : Bool → Ram → EcRegisterOffsets → FanCurve → Ram
unfolding loq_writes
ec_write_fancurve_loq ro ram r c =
    let table = write_all ro ram (loq_writes r c) in
    ecram_write ro table loq_cmdr_addr (bit_or (ecram_read table loq_cmdr_addr) 16)
