-- ===== src/Samples.antt =====
-- Concrete inputs: a curve, a firmware that keeps the last table sent to it, a state, and a chip behind
-- the ports. The theorems are applied to them in the modules below.
mod Chip
mod Curves
mod Stores
mod Modes
mod Limits
mod Lifecycle
mod Devices
use sc_control.Base.{
  ℕ, zero, suc, ◌+◌, ◌*◌, ◌<◌, ◌≡◌, refl, ◌==◌, if◌then◌else◌, Bool, true, false, String, List, [],
  ◌∷◌, ◌++◌, Option, none, some, ℤ, pos, All, get_or, arith, length,
}
use sc_control.Ec.{Ram}
use sc_control.Ec.Bytes.{IsRam}
use sc_control.FanCurve.{
  FanCurve, FanCurvePoint, FanSpeedUnit, rpm_hundred, IsPoint, IsCurve, IsMemory,
}
use sc_control.Firmware.State.{AcpiObject, integer, buffer, Firmware, State}
use sc_control.FanControl.Curve.Cache.{IsState}

abbrev pub sample_point : FanCurvePoint
sample_point = record {
  speed1 = 20;
  speed2 = 22;
  accel = 3;
  decel = 4;
  cpu_max_temp_celsius = 70;
  cpu_min_temp_celsius = 60;
  gpu_max_temp_celsius = 71;
  gpu_min_temp_celsius = 61;
  ic_max_temp_celsius = 72;
  ic_min_temp_celsius = 62;
}

abbrev pub ten : List FanCurvePoint
ten =
    sample_point ∷ sample_point ∷ sample_point ∷ sample_point ∷ sample_point ∷ sample_point
    ∷ sample_point ∷ sample_point ∷ sample_point ∷ sample_point ∷ []

abbrev pub sample_curve : FanCurve
sample_curve = record {
  points = ten;
  fan_speed_unit = rpm_hundred;
  max_rpm = 0;
  size = 7;
  current_point_i = 0;
}

sample_point-IsPoint : IsPoint sample_point
sample_point-IsPoint = ground arith

ten-IsPoint : All IsPoint ten
ten-IsPoint = let p = sample_point-IsPoint in (p, (p, (p, (p, (p, (p, (p, (p, (p, (p, tt))))))))))

pub sample_curve-IsCurve : IsCurve sample_curve
sample_curve-IsCurve = record {
  entries = refl;
  bytes = ten-IsPoint;
  fits = omega arith;
  rpm_word = omega arith;
}

pub sample_curve-IsMemory : IsMemory sample_curve
sample_curve-IsMemory = record { entries = refl; bytes = ten-IsPoint; rpm_word = omega arith }

-- Every register holds the same byte.
abbrev pub sample_ram : Ram
sample_ram a = 3

-- The table that answers for the parameters that were sent, from entry `i` on.
abbrev table_reply : List ℕ → ℕ → ℕ → List ℕ
table_reply params i zero = []
table_reply params i (suc n) =
    get_or params (6 + 2 * i) 0 ∷ 0 ∷ 0 ∷ 0 ∷ table_reply params (i + 1) n

abbrev padding : ℕ → List ℕ
padding zero = []
padding (suc n) = 0 ∷ padding n

-- Method 6 takes a table, 5 returns it, and 45 returns the custom power mode.
abbrev pub sample_firmware : Firmware (List ℕ)
sample_firmware = record {
  has_guid = λ g. true;
  evaluate_method = λ g i m params f.
      if m == 5
      then (some (some (buffer (10 ∷ 0 ∷ 0 ∷ 0 ∷ (table_reply f 0 10 ++ padding 44)))), f)
      else if m == 6
      then (some none, params)
      else (some (some (integer 255)), f);
  get_handle = λ p. true;
  evaluate_integer = λ p f. (some 255, f);
  execute_simple_method = λ p v f. (true, f);
  since_7_0 = false;
  companion = true;
}

abbrev pub sample_state : State (List ℕ)
sample_state = record {
  ram = sample_ram;
  firmware = [];
  fancurve = sample_curve;
  fancurve_valid = true;
  current_powermode = pos 2;
  fancurve_defaults_powermode = pos 0;
  fan_unlock_state = 0;
  cpu_pl_coupling = true;
}

pub sample_ram-IsRam : IsRam sample_ram
sample_ram-IsRam = record { cell_byte = λ a. omega arith }

pub sample_state-IsState : IsState sample_state
sample_state-IsState = record { ram_bytes = sample_ram-IsRam; cached = λ _. sample_curve-IsCurve }
