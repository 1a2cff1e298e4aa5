-- ===== src/Capdata/Laws.antt =====
-- The range and the accuracy of a clamped value.
use sc_control.Base.{
  ℕ, ◌+◌, ◌-◌, ◌*◌, ◌≤◌, ◌<◌, ◌≡◌, ◌≢◌, ◌==◌, false, Option, some, arith, ℤ, pos, ◌≤ℤ◌, signed32,
  unsigned32, u32, distance,
}
use sc_control.Capdata.{Capdata01, DiscreteFeature, clamp_int, snapped, capdata_clamp}

clamp_int-range : (v lo hi : ℤ) → lo ≤ℤ hi → (lo ≤ℤ clamp_int v lo hi) × (clamp_int v lo hi ≤ℤ hi)
clamp_int-range v lo hi h = ground arith

-- What the kernel documents of DIV_ROUND_CLOSEST, for a dividend that is not negative and a positive
-- divisor: the quotient is a closest integer.
pub record RoundsToClosest (round : ℤ → ℕ → ℕ) : Type 0 where
  pub closest_quotient : (n d : ℕ) → 0 < d → 2 * distance (pos n) (pos (round (pos n) d * d)) ≤ d

-- For an entry with a step and a range that is not empty, the clamped value of any int lies in the
-- range, whatever DIV_ROUND_CLOSEST does.
pub capdata_clamp_range :
    (round : ℤ → ℕ → ℕ) (cd : Capdata01) (value : ℤ) (df : Option DiscreteFeature)
    → cd.step ≢ 0
    → signed32 cd.min_value ≤ℤ signed32 cd.max_value
    → let r = capdata_clamp round (some cd) value df in
      (signed32 cd.min_value ≤ℤ r) × (r ≤ℤ signed32 cd.max_value)
unfolding capdata_clamp
capdata_clamp_range round cd value df s h =
    let off : (cd.step == 0) ≡ false = ground arith in
    rw off
      (clamp_int-range (snapped round cd value) (signed32 cd.min_value) (signed32 cd.max_value) h)

-- A value within the range of an entry that has a step and whose numbers, with a step more, are below 2^31
-- is changed by at most half a step, if DIV_ROUND_CLOSEST rounds to a closest integer.
pub capdata_clamp_close :
    (round : ℤ → ℕ → ℕ) (cd : Capdata01) (v : ℕ) (df : Option DiscreteFeature)
    → RoundsToClosest round
    → cd.step ≢ 0
    → cd.min_value ≤ v
    → v ≤ cd.max_value
    → cd.max_value + cd.step < 2147483648
    → 2 * distance (pos v) (capdata_clamp round (some cd) (pos v) df) ≤ cd.step
unfolding capdata_clamp snapped
capdata_clamp_close round cd v df k s l h b =
    let off : (cd.step == 0) ≡ false = ground arith in
    let offset : signed32 (u32 (unsigned32 (pos v) + (4294967296 - cd.min_value)))
        ≡ pos (v - cd.min_value) =
      ground arith in
    let close = k.closest_quotient (v - cd.min_value) cd.step (omega arith) in
    rw (off, offset)
      (close_lem cd.min_value cd.max_value v cd.step
        (round (pos (v - cd.min_value)) cd.step * cd.step) l h b close)
  where
    close_lem :
        (lo hi v step g : ℕ)
        → lo ≤ v
        → v ≤ hi
        → hi + step < 2147483648
        → 2 * distance (pos (v - lo)) (pos g) ≤ step
        → 2 * distance (pos v) (clamp_int (signed32 (u32 (lo + g))) (signed32 lo) (signed32 hi))
          ≤ step
    close_lem lo hi v step g l h b close =
        let bound : lo + g < 2147483648 = omega arith in
        let low : signed32 (u32 (lo + g)) ≡ pos (lo + g) = ground arith in
        let first : signed32 lo ≡ pos lo = ground arith in
        let last : signed32 hi ≡ pos hi = ground arith in rw (low, first, last) (ground arith)
