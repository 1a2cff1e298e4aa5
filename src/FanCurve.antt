-- ===== src/FanCurve.antt =====
-- The fan curve of driver/legion-laptop.c and its validating setters. A setter returns the curve that
-- it leaves and its verdict; the points are a list of the `MAXFANCURVESIZE` array entries.
pub mod Speed
pub mod Setters
pub mod Bounds
pub mod Size
pub mod Layout
use sc_control.Base.{ℕ, List, ◌<◌, ◌≤◌, ◌≡◌, length, get_or, set, All}

abbrev pub max_fancurve_size : ℕ
max_fancurve_size = 10

abbrev pub max_rpm_default : ℕ
max_rpm_default = 10000

-- `unset` is any other value of the enumeration, such as the zero that memset leaves.
pub data FanSpeedUnit : Type 0 where
  unset percent pwm rpm_hundred percent_nearest : FanSpeedUnit

pub record FanCurvePoint : Type 0 where
  pub speed1 : ℕ
  pub speed2 : ℕ
  pub accel : ℕ
  pub decel : ℕ
  pub cpu_max_temp_celsius : ℕ
  pub cpu_min_temp_celsius : ℕ
  pub gpu_max_temp_celsius : ℕ
  pub gpu_min_temp_celsius : ℕ
  pub ic_max_temp_celsius : ℕ
  pub ic_min_temp_celsius : ℕ

abbrev pub fancurve_point_zero : FanCurvePoint
fancurve_point_zero = record {
  speed1 = 0;
  speed2 = 0;
  accel = 0;
  decel = 0;
  cpu_max_temp_celsius = 0;
  cpu_min_temp_celsius = 0;
  gpu_max_temp_celsius = 0;
  gpu_min_temp_celsius = 0;
  ic_max_temp_celsius = 0;
  ic_min_temp_celsius = 0;
}

pub record FanCurve : Type 0 where
  pub points : List FanCurvePoint
  pub fan_speed_unit : FanSpeedUnit
  pub max_rpm : ℕ
  pub size : ℕ
  pub current_point_i : ℕ

-- Every field of a point is a byte.
pub record IsPoint (p : FanCurvePoint) : Type 0 where
  pub speed1_byte : p.speed1 < 256
  pub speed2_byte : p.speed2 < 256
  pub accel_byte : p.accel < 256
  pub decel_byte : p.decel < 256
  pub cpu_max_byte : p.cpu_max_temp_celsius < 256
  pub cpu_min_byte : p.cpu_min_temp_celsius < 256
  pub gpu_max_byte : p.gpu_max_temp_celsius < 256
  pub gpu_min_byte : p.gpu_min_temp_celsius < 256
  pub ic_max_byte : p.ic_max_temp_celsius < 256
  pub ic_min_byte : p.ic_min_temp_celsius < 256

-- The array has its ten entries, all of bytes, and the size and the u16 maximum are in range.
pub record IsCurve (c : FanCurve) : Type 0 where
  pub entries : length c.points ≡ 10
  pub bytes : All IsPoint c.points
  pub fits : c.size ≤ 10
  pub rpm_word : c.max_rpm < 65536

-- What the types of the fields alone say of a `struct fancurve`, assigned or not.
pub record IsMemory (c : FanCurve) : Type 0 where
  pub entries : length c.points ≡ 10
  pub bytes : All IsPoint c.points
  pub rpm_word : c.max_rpm < 65536

-- `points[i]`, read within the array.
abbrev pub point_at : FanCurve → ℕ → FanCurvePoint
point_at c i = get_or c.points i fancurve_point_zero

-- `points[i] = p`
abbrev pub set_point : FanCurve → ℕ → FanCurvePoint → FanCurve
set_point c i p = record c { points = set c.points i p }
