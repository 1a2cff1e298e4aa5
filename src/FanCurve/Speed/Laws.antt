-- ===== src/FanCurve/Speed/Laws.antt =====
-- The error of a speed's encoding, in both directions.
use sc_control.Base.{ℕ, ◌+◌, ◌-◌, ◌*◌, ◌/◌, ◌%◌, ◌≤◌, ◌<◌, ◌≡◌, some, arith, ◌==◌, if◌then◌else◌}
use sc_control.FanCurve.{percent, rpm_hundred, percent_nearest}
use sc_control.FanCurve.Speed.{encode_speed, decode_speed}

-- A stored speed of percent-nearest curves, shown as a PWM value and stored again, is the same speed.
pub percent_nearest_restore :
    (m s v : ℕ)
    → s ≤ 100
    → decode_speed percent_nearest m s ≡ some v
    → encode_speed percent_nearest m v ≡ some s
unfolding encode_speed decode_speed
percent_nearest_restore m s v h e = ground arith

-- A PWM value stored in percent is shown again at most 3 lower, and never higher.
pub percent_error :
    (m v s w : ℕ)
    → v ≤ 255
    → encode_speed percent m v ≡ some s
    → decode_speed percent m s ≡ some w
    → (w ≤ v) × (v ≤ w + 3)
unfolding encode_speed decode_speed
percent_error m v s w h e d = ground arith

-- x / m by its two bounds.
div_unique : (m x q : ℕ) → 0 < m → q * m ≤ x → x < q * m + m → x / m ≡ q
div_unique m x q p lo hi = grind arith

div_bounds : (m x : ℕ) → 0 < m → (x / m * m ≤ x) × (x < x / m * m + m)
div_bounds m x p = grind arith

-- A stored speed of percent curves, shown as a PWM value and stored again, is the same speed only
-- where the PWM value was exact; otherwise it is one percent lower.
pub percent_restore :
    (m s v : ℕ)
    → s ≤ 100
    → decode_speed percent m s ≡ some v
    → encode_speed percent m v ≡ some (if s * 255 % 100 == 0 then s else s - 1)
unfolding encode_speed decode_speed
percent_restore m s v h e = ground arith

rpm_restore_value :
    (m s v : ℕ)
    → 0 < m
    → m ≤ 25500
    → s < 256
    → v ≡ s * 255 * 100 / m
    → (v * m + 25499 < 6528000) × ((v * m + 25499) / 25500 ≡ s)
rpm_restore_value m s v p q h e = let b = div_bounds m (s * 255 * 100) p in rw e (omega arith)

-- A speed of RPM curves with a maximum of at most 25500, decoded and encoded again without the range test
-- of the setter, is the same speed.
pub rpm_restore :
    (m s v : ℕ)
    → 0 < m
    → m ≤ 25500
    → s < 256
    → decode_speed rpm_hundred m s ≡ some v
    → encode_speed rpm_hundred m v ≡ some s
unfolding encode_speed decode_speed
rpm_restore m s v p q h e = ground (arith, rpm_restore_value m s v p q h)

le_of_mul-lt : (m v w : ℕ) → v * m < w * m + m → v ≤ w
le_of_mul-lt m v w h = grind arith

rpm_encode_value : (m v : ℕ) → m ≤ 25500 → v ≤ 255 → v * m ≤ 6502500
rpm_encode_value m v p q = grind arith

rpm_decode_value : (m v s w : ℕ) → 0 < m → v * m ≤ 25500 * s → w ≡ s * 255 * 100 / m → v ≤ w
rpm_decode_value m v s w p h e =
    le_of_mul-lt m v w (let b = div_bounds m (s * 255 * 100) p in rw e (omega arith))

-- A PWM value stored in RPM, with a maximum of at most 25500, is never shown lower than it was set.
pub rpm_never_slower :
    (m v s w : ℕ)
    → 0 < m
    → m ≤ 25500
    → v ≤ 255
    → encode_speed rpm_hundred m v ≡ some s
    → decode_speed rpm_hundred m s ≡ some w
    → v ≤ w
unfolding encode_speed decode_speed
rpm_never_slower m v s w p q h e d =
    rpm_decode_value m v s w p (ground (arith, rpm_encode_value m v q h)) (ground arith)
