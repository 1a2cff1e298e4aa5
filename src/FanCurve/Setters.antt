-- ===== src/FanCurve/Setters.antt =====
-- The setters of one field of a point, and `fancurve_set_size`.
use sc_control.Base.{
  ℕ, zero, suc, ◌+◌, ◌-◌, Bool, true, false, ◌&&◌, ltb, if◌then◌else◌, ℤ, pos, pos_part, leb_ℤ,
}
use sc_control.FanCurve.{FanCurve, max_fancurve_size, point_at, set_point}

unfoldable pub fancurve_is_valid_min_temp : ℤ → Bool
fancurve_is_valid_min_temp t = leb_ℤ (pos 0) t && leb_ℤ t (pos 127)

unfoldable pub fancurve_is_valid_max_temp : ℤ → Bool
fancurve_is_valid_max_temp t = leb_ℤ (pos 0) t && leb_ℤ t (pos 127)

-- The range of an acceleration and of a deceleration.
abbrev pub is_valid_ramp : ℤ → Bool
is_valid_ramp v = leb_ℤ (pos 2) v && leb_ℤ v (pos 5)

unfoldable pub fancurve_set_accel : FanCurve → ℕ → ℤ → FanCurve × Bool
fancurve_set_accel c i v =
    if is_valid_ramp v
    then (set_point c i (record (point_at c i) { accel = pos_part v }), true)
    else (c, false)

unfoldable pub fancurve_set_decel : FanCurve → ℕ → ℤ → FanCurve × Bool
fancurve_set_decel c i v =
    if is_valid_ramp v
    then (set_point c i (record (point_at c i) { decel = pos_part v }), true)
    else (c, false)

unfoldable pub fancurve_set_cpu_temp_max : FanCurve → ℕ → ℤ → FanCurve × Bool
unfolding fancurve_is_valid_max_temp
fancurve_set_cpu_temp_max c i v =
    if fancurve_is_valid_max_temp v
    then (set_point c i (record (point_at c i) { cpu_max_temp_celsius = pos_part v }), true)
    else (c, false)

unfoldable pub fancurve_set_gpu_temp_max : FanCurve → ℕ → ℤ → FanCurve × Bool
unfolding fancurve_is_valid_max_temp
fancurve_set_gpu_temp_max c i v =
    if fancurve_is_valid_max_temp v
    then (set_point c i (record (point_at c i) { gpu_max_temp_celsius = pos_part v }), true)
    else (c, false)

unfoldable pub fancurve_set_ic_temp_max : FanCurve → ℕ → ℤ → FanCurve × Bool
unfolding fancurve_is_valid_max_temp
fancurve_set_ic_temp_max c i v =
    if fancurve_is_valid_max_temp v
    then (set_point c i (record (point_at c i) { ic_max_temp_celsius = pos_part v }), true)
    else (c, false)

-- The source tests the lower CPU temperature by the validator of the upper one.
unfoldable pub fancurve_set_cpu_temp_min : FanCurve → ℕ → ℤ → FanCurve × Bool
unfolding fancurve_is_valid_max_temp
fancurve_set_cpu_temp_min c i v =
    if fancurve_is_valid_max_temp v
    then (set_point c i (record (point_at c i) { cpu_min_temp_celsius = pos_part v }), true)
    else (c, false)

unfoldable pub fancurve_set_gpu_temp_min : FanCurve → ℕ → ℤ → FanCurve × Bool
unfolding fancurve_is_valid_min_temp
fancurve_set_gpu_temp_min c i v =
    if fancurve_is_valid_min_temp v
    then (set_point c i (record (point_at c i) { gpu_min_temp_celsius = pos_part v }), true)
    else (c, false)

unfoldable pub fancurve_set_ic_temp_min : FanCurve → ℕ → ℤ → FanCurve × Bool
unfolding fancurve_is_valid_min_temp
fancurve_set_ic_temp_min c i v =
    if fancurve_is_valid_min_temp v
    then (set_point c i (record (point_at c i) { ic_min_temp_celsius = pos_part v }), true)
    else (c, false)

-- A smaller curve still ends at 127 degrees.
unfoldable pub close_at : FanCurve → ℕ → FanCurve
close_at c last = set_point c last (record (point_at c last) {
  cpu_max_temp_celsius = 127;
  ic_max_temp_celsius = 127;
  gpu_max_temp_celsius = 127;
})

-- The `n` entries from `i` on become copies of the entry `last`.
unfoldable pub fill_from : FanCurve → ℕ → ℕ → ℕ → FanCurve
fill_from c last i zero = c
fill_from c last i (suc n) = fill_from (set_point c i (point_at c last)) last (i + 1) n

-- `fancurve_set_size`: the field `size` itself is not assigned.
unfoldable pub fancurve_set_size : FanCurve → ℤ → Bool → FanCurve × Bool
unfolding close_at fill_from
fancurve_set_size c size init_values =
    let n = pos_part size in
    let last = if ltb 0 c.size then c.size - 1 else 0 in
    let shrunk = if init_values && ltb n c.size then close_at c (n - 1) else c in
    let grown =
      if init_values && ltb c.size n then fill_from shrunk last c.size (n - c.size) else shrunk in
    if leb_ℤ (pos 1) size && leb_ℤ size (pos max_fancurve_size) then (grown, true) else (c, false)
