-- ===== src/Capdata.antt =====
-- Capability data: the lookup of the entry of a feature and the clamping of a value to it, `clamped_value`
-- and `capdata_clamp`.
pub mod Laws
pub mod Discrete
pub mod Collect
pub mod CollectLaws
use sc_control.Base.{
  ℕ, ◌+◌, ◌-◌, ◌*◌, ◌/◌, ◌%◌, ◌==◌, ltb, Bool, true, false, ◌&&◌, if◌then◌else◌, List, [], ◌∷◌,
  Option, none, some, ℤ, pos, negsuc, ltb_ℤ, signed32, unsigned32, u32, distance,
}
use sc_control.Errno.{Result, ok, err}

pub record Capdata01 : Type 0 where
  pub id : ℕ
  pub supported : ℕ
  pub default_value : ℕ
  pub step : ℕ
  pub min_value : ℕ
  pub max_value : ℕ

-- `values` holds the first `count` entries of the array.
pub record DiscreteFeature : Type 0 where
  pub feature_id : ℕ
  pub values : List ℤ

-- `abs` of a difference of `d` between two ints, which wraps at 32 bits.
abbrev pub wrapped_abs : ℕ → ℤ
wrapped_abs d =
    if ltb d 2147483648
    then pos d
    else if d == 2147483648
    then negsuc 2147483647
    else pos (4294967296 - d)

-- The loop over the values after the first.
unfoldable pub closest : ℤ → ℤ → List ℤ → ℤ
closest value best [] = best
closest value best (v ∷ vs) =
    closest value
      (if ltb_ℤ (wrapped_abs (distance value v)) (wrapped_abs (distance value best))
        then v
        else best)
      vs

-- `clamp` of the kernel, for a range that is not empty.
abbrev pub clamp_int : ℤ → ℤ → ℤ → ℤ
clamp_int value lo hi = if ltb_ℤ value lo then lo else if ltb_ℤ hi value then hi else value

-- Is the entry the one of the feature's key in the power mode?
abbrev pub matches_mode : ℕ → ℤ → Capdata01 → Bool
matches_mode fkey mode p =
    (p.id / 65536 == fkey)
    && ((p.id / 256 % 256 == unsigned32 mode) && ((p.id % 256 == 0) && (p.supported % 2 == 1)))

-- The first entry that passes the test.
unfoldable pub find_first : {A : Type 0} → (A → Bool) → List A → Option A
find_first test [] = none
find_first test (x ∷ xs) = let rest = find_first test xs in if test x then some x else rest

-- The values of a feature without a step.
abbrev pub discrete_clamp : ℤ → Option DiscreteFeature → ℤ
discrete_clamp value none = value
discrete_clamp value (some df) = closest_of value df.values
  where
    closest_of : ℤ → List ℤ → ℤ
    closest_of value [] = value
    closest_of value (v ∷ vs) = closest value v vs

-- `round` is DIV_ROUND_CLOSEST of an int and a u32, as a u32.
module _ (round : ℤ → ℕ → ℕ) where
  -- The value on the grid of the entry.
  unfoldable pub snapped : Capdata01 → ℤ → ℤ
  snapped cd value =
      let offset = signed32 (u32 (unsigned32 value + (4294967296 - cd.min_value))) in
      signed32 (u32 (cd.min_value + round offset cd.step * cd.step))

  -- `capdata_clamp`
  unfoldable pub capdata_clamp : Option Capdata01 → ℤ → Option DiscreteFeature → ℤ
  unfolding snapped
  capdata_clamp none value df = value
  capdata_clamp (some cd) value df =
      if cd.step == 0
      then discrete_clamp value df
      else clamp_int (snapped cd value) (signed32 cd.min_value) (signed32 cd.max_value)

  -- `clamped_value`, from what `kstrtoint` made of the text.
  unfoldable pub clamped_value : List Capdata01 → List DiscreteFeature → ℤ → ℕ → Result ℤ → Result ℤ
  clamped_value capdata features mode feature (err e) = err e
  clamped_value capdata features mode feature (ok value) =
      let fkey = feature / 65536 in
      ok (
        capdata_clamp (find_first (matches_mode fkey mode) capdata) value
          (find_first (λ f. f.feature_id / 65536 == fkey) features))
