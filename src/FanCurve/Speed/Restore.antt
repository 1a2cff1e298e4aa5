-- ===== src/FanCurve/Speed/Restore.antt =====
-- A speed that `fancurve_get_speed_pwm` shows, given back to `fancurve_set_speed_pwm`.
use sc_control.Base.{
  ℕ, zero, suc, ◌<◌, ◌≤◌, ◌≡◌, refl, ap, subst, ◌∙◌, Bool, true, false, ◌&&◌, List, [], ◌∷◌, Option,
  none, some, length, get_or, set, get_or-set_self, ltb, leb, leb_ℤ, ◌==◌, if◌then◌else◌, arith,
  pos,
}
use sc_control.FanCurve.{
  FanCurve, FanCurvePoint, IsPoint, IsCurve, fancurve_point_zero, point_at, set_point, rpm_hundred,
}
use sc_control.FanCurve.Bounds.{point_at-IsPoint}
use sc_control.FanCurve.Speed.{
  effective_max_rpm, encode_speed, decode_speed, speed_of, set_speed, store_speed,
  fancurve_set_speed_pwm, fancurve_get_speed_pwm,
}
use sc_control.FanCurve.Speed.Laws.{rpm_restore}

set-set-get_or :
    (xs : List FanCurvePoint) (i : ℕ) (q d : FanCurvePoint)
    → set (set xs i q) i (get_or xs i d) ≡ xs
set-set-get_or [] i q d = refl
set-set-get_or (x ∷ xs) zero q d = refl
set-set-get_or (x ∷ xs) (suc i) q d = ap (λ t. x ∷ t) (set-set-get_or xs i q d)

set_speed-set_speed :
    (p : FanCurvePoint) (fan w : ℕ) → set_speed (set_speed p fan w) fan (speed_of p fan) ≡ p
set_speed-set_speed p fan w = choice (fan == 0)
  where
    pick : Bool → FanCurvePoint → ℕ → FanCurvePoint
    pick b q v = if b then record q { speed1 = v } else record q { speed2 = v }

    choice : (b : Bool) → pick b (pick b p w) (if b then p.speed1 else p.speed2) ≡ p
    choice true = refl
    choice false = refl

-- The curve with another speed gets its own speed back.
put_back :
    (c : FanCurve) (i fan w : ℕ)
    → i < length c.points
    → let d = set_point c i (set_speed (point_at c i) fan w) in
      set_point d i (set_speed (point_at d i) fan (speed_of (point_at c i) fan)) ≡ c
put_back c i fan w h =
    let q = set_speed (point_at c i) fan w in
    ap (λ p. set_point (set_point c i q) i (set_speed p fan (speed_of (point_at c i) fan)))
      (get_or-set_self c.points i q fancurve_point_zero h)
    ∙ ap (λ p. set_point (set_point c i q) i p) (set_speed-set_speed (point_at c i) fan w)
    ∙ ap (λ ps. record c { points = ps }) (set-set-get_or c.points i q fancurve_point_zero)

guarded_some :
    (b : Bool) (o : Option ℕ) (v : ℕ) → (if b then o else none) ≡ some v → (b ≡ true) × (o ≡ some v)
guarded_some true o v h = (refl, h)
guarded_some false o v h = cc

speed_byte : (p : FanCurvePoint) (fan : ℕ) → IsPoint p → speed_of p fan < 256
speed_byte p fan h = elim (fan == 0) as (λ b. (if b then p.speed1 else p.speed2) < 256) [
  | true ↦ h.speed1_byte
  | false ↦ h.speed2_byte
]

in_pwm_range : (v : ℕ) → (leb_ℤ (pos 0) (pos v) && leb_ℤ (pos v) (pos 255)) ≡ leb v 255
in_pwm_range v = ground arith

index_in :
    (c : FanCurve) (i fan : ℕ)
    → IsCurve c
    → (ltb i c.size && ltb fan 2) ≡ true
    → i < length c.points
index_in c i fan h b = let bound = h.fits in let all = h.entries in ground arith

verdict :
    (b : Bool) (c d : FanCurve)
    → let p : FanCurve × Bool = if b then (c, true) else (d, false) in p ≡ (if b then c else d, b)
verdict true c d = refl
verdict false c d = refl

-- In a well-formed curve of RPM speeds whose maximum is at most 25500, the speed of a point is overwritten
-- by any other, and then the PWM value that was shown for it before is stored: if that value is at most
-- 255, the store succeeds and the curve is as it was at first; if it is greater, as for a speed far above
-- the maximum, the store is refused and the curve keeps the other speed.
pub shown_speed_restores :
    (c : FanCurve) (i fan w v : ℕ)
    → IsCurve c
    → c.fan_speed_unit ≡ rpm_hundred
    → effective_max_rpm c ≤ 25500
    → fancurve_get_speed_pwm c i fan ≡ some v
    → let d = set_point c i (set_speed (point_at c i) fan w) in
      fancurve_set_speed_pwm d i fan (pos v) ≡ (if leb v 255 then c else d, leb v 255)
unfolding fancurve_get_speed_pwm fancurve_set_speed_pwm store_speed
shown_speed_restores c i fan w v h u m g =
    let p = point_at c i in
    let d = set_point c i (set_speed p fan w) in
    let (b, shown) = guarded_some (ltb i c.size && ltb fan 2) _ v g in
    let decoded : decode_speed rpm_hundred (effective_max_rpm c) (speed_of p fan) ≡ some v =
      subst (λ unit. decode_speed unit (effective_max_rpm c) (speed_of p fan) ≡ some v) u shown in
    let encoded : encode_speed rpm_hundred (effective_max_rpm c) v ≡ some (speed_of p fan) =
      rpm_restore (effective_max_rpm c) (speed_of p fan) v (ground arith) m
        (speed_byte p fan (point_at-IsPoint i h)) decoded in
    let stored : store_speed d i fan (encode_speed d.fan_speed_unit (effective_max_rpm d) v)
        ≡ (c, true) =
      ap (λ unit. store_speed d i fan (encode_speed unit (effective_max_rpm c) v)) u
      ∙ ap (store_speed d i fan) encoded
      ∙ ap (λ e. (e, true)) (put_back c i fan w (index_in c i fan h b)) in
    rw (in_pwm_range v) (
      ap
        (λ t.
          if leb v 255
          then if t
            then store_speed d i fan (encode_speed d.fan_speed_unit (effective_max_rpm d) v)
            else (d, false)
          else (d, false))
        b
      ∙ ap (λ q. if leb v 255 then q else (d, false)) stored
      ∙ verdict (leb v 255) c d)
