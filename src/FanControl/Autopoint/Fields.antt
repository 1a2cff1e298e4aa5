-- ===== src/FanControl/Autopoint/Fields.antt =====
-- The attributes that are one field of a point: what a setter accepted is what is shown.
use sc_control.Base.{
  ℕ, ◌<◌, ◌≡◌, ap, ◌∙◌, Bool, true, false, if◌then◌else◌, pos, some, arith, length, get_or-set_self,
  sym,
}
use sc_control.Errno.{ok}
use sc_control.FanCurve.{FanCurve, FanCurvePoint, IsCurve, point_at, set_point, fancurve_point_zero}
use sc_control.FanCurve.Setters.{
  fancurve_set_accel, fancurve_set_decel, fancurve_set_cpu_temp_max, fancurve_set_gpu_temp_max,
  fancurve_set_ic_temp_max, fancurve_set_cpu_temp_min, fancurve_set_gpu_temp_min,
  fancurve_set_ic_temp_min, is_valid_ramp, fancurve_is_valid_max_temp, fancurve_is_valid_min_temp,
}
use sc_control.FanControl.Autopoint.{
  FanCurveAttr, attr_pwm1, attr_pwm2, attr_cpu_temp, attr_cpu_hyst, attr_gpu_temp, attr_gpu_hyst,
  attr_ic_temp, attr_ic_hyst, attr_accel, attr_decel, attr_size, attr_minifancurve_on_cool,
  get_attr, set_attr,
}

-- The attributes that are one field of a point, not a speed.
abbrev pub is_field : FanCurveAttr → Bool
is_field attr_pwm1 = false
is_field attr_pwm2 = false
is_field attr_size = false
is_field attr_minifancurve_on_cool = false
is_field _ = true

-- What an accepted edit of a field leaves at the index, and that the size stays.
accepted :
    (b : Bool) (c d : FanCurve) (i : ℕ) (p : FanCurvePoint)
    → IsCurve c
    → i < 10
    → (let r : FanCurve × Bool = if b then (set_point c i p, true) else (c, false) in some r)
      ≡ some (d, true)
    → (point_at d i ≡ p) × (d.size ≡ c.size)
accepted true c d i p w l e =
    let same : set_point c i p ≡ d = cc in
    let bound : i < length c.points = omega (arith, w.entries) in
    (
      ap (λ f. point_at f i) (sym same) ∙ get_or-set_self c.points i p fancurve_point_zero bound,
      ap (λ f. f.size) (sym same),
    )
accepted false c d i p w l e = cc

-- What a setter accepted is what the attribute shows of its curve.
pub set_attr-get_attr :
    (attr : FanCurveAttr) {c d : FanCurve} (i n : ℕ)
    → is_field attr ≡ true
    → IsCurve c
    → i < 10
    → set_attr attr c i (pos n) ≡ some (d, true)
    → (get_attr attr d i ≡ ok n) × (d.size ≡ c.size)
unfolding set_attr get_attr fancurve_set_accel fancurve_set_decel fancurve_set_cpu_temp_max
    fancurve_set_gpu_temp_max fancurve_set_ic_temp_max fancurve_set_cpu_temp_min
    fancurve_set_gpu_temp_min fancurve_set_ic_temp_min
set_attr-get_attr attr_pwm1 i n f w l e = cc
set_attr-get_attr attr_pwm2 i n f w l e = cc
set_attr-get_attr attr_size i n f w l e = cc
set_attr-get_attr attr_minifancurve_on_cool i n f w l e = cc
set_attr-get_attr attr_cpu_temp {c} {d} i n f w l e =
    let (p, s) = accepted (fancurve_is_valid_max_temp (pos n)) c d i _ w l e in
    (ap (λ q. ok q.cpu_max_temp_celsius) p, s)
set_attr-get_attr attr_cpu_hyst {c} {d} i n f w l e =
    let (p, s) = accepted (fancurve_is_valid_max_temp (pos n)) c d i _ w l e in
    (ap (λ q. ok q.cpu_min_temp_celsius) p, s)
set_attr-get_attr attr_gpu_temp {c} {d} i n f w l e =
    let (p, s) = accepted (fancurve_is_valid_max_temp (pos n)) c d i _ w l e in
    (ap (λ q. ok q.gpu_max_temp_celsius) p, s)
set_attr-get_attr attr_gpu_hyst {c} {d} i n f w l e =
    let (p, s) = accepted (fancurve_is_valid_min_temp (pos n)) c d i _ w l e in
    (ap (λ q. ok q.gpu_min_temp_celsius) p, s)
set_attr-get_attr attr_ic_temp {c} {d} i n f w l e =
    let (p, s) = accepted (fancurve_is_valid_max_temp (pos n)) c d i _ w l e in
    (ap (λ q. ok q.ic_max_temp_celsius) p, s)
set_attr-get_attr attr_ic_hyst {c} {d} i n f w l e =
    let (p, s) = accepted (fancurve_is_valid_min_temp (pos n)) c d i _ w l e in
    (ap (λ q. ok q.ic_min_temp_celsius) p, s)
set_attr-get_attr attr_accel {c} {d} i n f w l e =
    let (p, s) = accepted (is_valid_ramp (pos n)) c d i _ w l e in (ap (λ q. ok q.accel) p, s)
set_attr-get_attr attr_decel {c} {d} i n f w l e =
    let (p, s) = accepted (is_valid_ramp (pos n)) c d i _ w l e in (ap (λ q. ok q.decel) p, s)

-- A field attribute shows nothing of the curve but its point.
pub get_attr-congr :
    (attr : FanCurveAttr) (c d : FanCurve) (i : ℕ)
    → is_field attr ≡ true
    → point_at c i ≡ point_at d i
    → get_attr attr c i ≡ get_attr attr d i
unfolding get_attr
get_attr-congr attr_cpu_temp c d i f e = ap (λ q. ok q.cpu_max_temp_celsius) e
get_attr-congr attr_cpu_hyst c d i f e = ap (λ q. ok q.cpu_min_temp_celsius) e
get_attr-congr attr_gpu_temp c d i f e = ap (λ q. ok q.gpu_max_temp_celsius) e
get_attr-congr attr_gpu_hyst c d i f e = ap (λ q. ok q.gpu_min_temp_celsius) e
get_attr-congr attr_ic_temp c d i f e = ap (λ q. ok q.ic_max_temp_celsius) e
get_attr-congr attr_ic_hyst c d i f e = ap (λ q. ok q.ic_min_temp_celsius) e
get_attr-congr attr_accel c d i f e = ap (λ q. ok q.accel) e
get_attr-congr attr_decel c d i f e = ap (λ q. ok q.decel) e
get_attr-congr _ c d i f e = cc
