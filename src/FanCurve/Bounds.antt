-- ===== src/FanCurve/Bounds.antt =====
-- Each setter of a point keeps the curve well formed.
use sc_control.Base.{
  ℕ, zero, suc, ◌+◌, ◌-◌, ◌<◌, ◌≡◌, refl, Bool, true, false, Option, some, none, arith,
  if◌then◌else◌, length-set, All-set, All-get_or, ℤ, leb_ℤ, pos, ltb, ◌&&◌, pos_part,
}
use sc_control.FanCurve.{
  FanCurve, FanCurvePoint, IsPoint, IsCurve, fancurve_point_zero, point_at, set_point, FanSpeedUnit,
  unset, percent, pwm, rpm_hundred, percent_nearest,
}
use sc_control.FanCurve.Speed.{
  encode_speed, store_speed, fancurve_set_speed_pwm, set_speed, effective_max_rpm,
}
use sc_control.FanCurve.Setters.{
  is_valid_ramp, fancurve_is_valid_max_temp, fancurve_is_valid_min_temp, fancurve_set_accel,
  fancurve_set_decel, fancurve_set_cpu_temp_max, fancurve_set_gpu_temp_max,
  fancurve_set_ic_temp_max, fancurve_set_cpu_temp_min, fancurve_set_gpu_temp_min,
  fancurve_set_ic_temp_min, close_at, fill_from, fancurve_set_size,
}

pub set_point-IsCurve :
    {c : FanCurve} (i : ℕ) (p : FanCurvePoint) → IsCurve c → IsPoint p → IsCurve (set_point c i p)
set_point-IsCurve {c} i p v h = record {
  entries = omega (arith, length-set c.points i p, v.entries);
  bytes = All-set IsPoint c.points i p v.bytes h;
  fits = v.fits;
  rpm_word = v.rpm_word;
}

pub point_at-IsPoint : {c : FanCurve} (i : ℕ) → IsCurve c → IsPoint (point_at c i)
point_at-IsPoint {c} i v = All-get_or IsPoint c.points i fancurve_point_zero v.bytes (omega arith)

-- A guarded write of one point keeps the curve well formed if the guard makes the point one.
guarded-IsCurve :
    {c : FanCurve} (b : Bool) (i : ℕ) (p : FanCurvePoint)
    → IsCurve c
    → (b ≡ true → IsPoint p)
    → let r : FanCurve × Bool = if b then (set_point c i p, true) else (c, false) in IsCurve r.0
guarded-IsCurve true i p v h = set_point-IsCurve i p v (h refl)
guarded-IsCurve false i p v h = v

if-IsCurve :
    (b : Bool) (r s : FanCurve × Bool)
    → IsCurve r.0
    → IsCurve s.0
    → let t : FanCurve × Bool = if b then r else s in IsCurve t.0
if-IsCurve true r s v w = v
if-IsCurve false r s v w = w

either-IsCurve : (b : Bool) (c d : FanCurve) → IsCurve c → IsCurve d → IsCurve (if b then c else d)
either-IsCurve true c d v w = v
either-IsCurve false c d v w = w

module _ {c : FanCurve} (i : ℕ) (x : ℤ) (v : IsCurve c) where
  pub set_accel-IsCurve : IsCurve (fancurve_set_accel c i x).0
  unfolding fancurve_set_accel
  set_accel-IsCurve =
      let q = point_at-IsPoint i v in guarded-IsCurve (is_valid_ramp x) i _ v (λ h. ground arith)

  pub set_decel-IsCurve : IsCurve (fancurve_set_decel c i x).0
  unfolding fancurve_set_decel
  set_decel-IsCurve =
      let q = point_at-IsPoint i v in guarded-IsCurve (is_valid_ramp x) i _ v (λ h. ground arith)

  pub set_cpu_temp_max-IsCurve : IsCurve (fancurve_set_cpu_temp_max c i x).0
  unfolding fancurve_set_cpu_temp_max
  set_cpu_temp_max-IsCurve =
      let q = point_at-IsPoint i v in
      guarded-IsCurve (fancurve_is_valid_max_temp x) i _ v (λ h. ground arith)

  pub set_gpu_temp_max-IsCurve : IsCurve (fancurve_set_gpu_temp_max c i x).0
  unfolding fancurve_set_gpu_temp_max
  set_gpu_temp_max-IsCurve =
      let q = point_at-IsPoint i v in
      guarded-IsCurve (fancurve_is_valid_max_temp x) i _ v (λ h. ground arith)

  pub set_ic_temp_max-IsCurve : IsCurve (fancurve_set_ic_temp_max c i x).0
  unfolding fancurve_set_ic_temp_max
  set_ic_temp_max-IsCurve =
      let q = point_at-IsPoint i v in
      guarded-IsCurve (fancurve_is_valid_max_temp x) i _ v (λ h. ground arith)

  pub set_cpu_temp_min-IsCurve : IsCurve (fancurve_set_cpu_temp_min c i x).0
  unfolding fancurve_set_cpu_temp_min
  set_cpu_temp_min-IsCurve =
      let q = point_at-IsPoint i v in
      guarded-IsCurve (fancurve_is_valid_max_temp x) i _ v (λ h. ground arith)

  pub set_gpu_temp_min-IsCurve : IsCurve (fancurve_set_gpu_temp_min c i x).0
  unfolding fancurve_set_gpu_temp_min
  set_gpu_temp_min-IsCurve =
      let q = point_at-IsPoint i v in
      guarded-IsCurve (fancurve_is_valid_min_temp x) i _ v (λ h. ground arith)

  pub set_ic_temp_min-IsCurve : IsCurve (fancurve_set_ic_temp_min c i x).0
  unfolding fancurve_set_ic_temp_min
  set_ic_temp_min-IsCurve =
      let q = point_at-IsPoint i v in
      guarded-IsCurve (fancurve_is_valid_min_temp x) i _ v (λ h. ground arith)

-- Every stored speed is a byte.
pub encode_speed-lt : (u : FanSpeedUnit) (m x : ℕ) {s : ℕ} → encode_speed u m x ≡ some s → s < 256
unfolding encode_speed
encode_speed-lt unset m x h = cc
encode_speed-lt percent m x h = ground arith
encode_speed-lt pwm m x h = ground arith
encode_speed-lt rpm_hundred m x h = ground arith
encode_speed-lt percent_nearest m x h = ground arith

set_speed-IsPoint :
    {p : FanCurvePoint} (fan_id s : ℕ) → IsPoint p → s < 256 → IsPoint (set_speed p fan_id s)
set_speed-IsPoint fan_id s h k = ground arith

store_speed-IsCurve :
    {c : FanCurve} (i fan_id : ℕ) (o : Option ℕ)
    → IsCurve c
    → ((s : ℕ) → o ≡ some s → s < 256)
    → IsCurve (store_speed c i fan_id o).0
unfolding store_speed
store_speed-IsCurve i fan_id none v h = v
store_speed-IsCurve i fan_id (some s) v h =
    set_point-IsCurve i _ v (set_speed-IsPoint fan_id s (point_at-IsPoint i v) (h s refl))

pub set_speed_pwm-IsCurve :
    {c : FanCurve} (i fan_id : ℕ) (x : ℤ)
    → IsCurve c
    → IsCurve (fancurve_set_speed_pwm c i fan_id x).0
unfolding fancurve_set_speed_pwm
set_speed_pwm-IsCurve {c} i fan_id x v =
    let u = c.fan_speed_unit in
    let m = effective_max_rpm c in
    if-IsCurve (leb_ℤ (pos 0) x && leb_ℤ x (pos 255)) _ _
      (if-IsCurve (ltb i c.size && ltb fan_id 2) _ _
        (store_speed-IsCurve i fan_id _ v (λ s. encode_speed-lt u m (pos_part x))) v)
      v

pub close_at-IsCurve : {c : FanCurve} (i : ℕ) → IsCurve c → IsCurve (close_at c i)
unfolding close_at
close_at-IsCurve i v = let q = point_at-IsPoint i v in set_point-IsCurve i _ v (ground arith)

pub fill_from-IsCurve : {c : FanCurve} (last i n : ℕ) → IsCurve c → IsCurve (fill_from c last i n)
unfolding fill_from
fill_from-IsCurve last i zero v = v
fill_from-IsCurve last i (suc n) v =
    fill_from-IsCurve last (i + 1) n (set_point-IsCurve i _ v (point_at-IsPoint last v))

pub set_size-IsCurve :
    {c : FanCurve} (x : ℤ) (init : Bool) → IsCurve c → IsCurve (fancurve_set_size c x init).0
unfolding fancurve_set_size
set_size-IsCurve {c} x init v =
    let n = pos_part x in
    let last = if ltb 0 c.size then c.size - 1 else 0 in
    let w = either-IsCurve (init && ltb n c.size) _ _ (close_at-IsCurve (n - 1) v) v in
    if-IsCurve (leb_ℤ (pos 1) x && leb_ℤ x (pos 10)) _ _
      (either-IsCurve (init && ltb c.size n) _ _ (fill_from-IsCurve last c.size (n - c.size) w) w) v
