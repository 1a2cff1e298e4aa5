-- ===== src/Samples/Limits.antt =====
-- The theorems on capability data, applied to a power limit and a rounding that keeps its documentation.

use sc_control.Base.{
  ℕ, ◌+◌, ◌*◌, ◌/◌, ◌≤◌, ◌<◌, refl, [], ◌∷◌, none, some, arith, ℤ, pos, pos_part, distance,
}
use sc_control.Capdata.{Capdata01, DiscreteFeature, capdata_clamp}
use sc_control.Capdata.Laws.{RoundsToClosest, capdata_clamp_close}
use sc_control.Capdata.Discrete.{Chosen, capdata_clamp_discrete}

abbrev half_up : ℤ → ℕ → ℕ
half_up n d = (pos_part n + d / 2) / d

half_up_lem : (n d : ℕ) → 0 < d → 2 * distance (pos n) (pos ((n + d / 2) / d * d)) ≤ d
half_up_lem n d h = grind arith

half_up-RoundsToClosest : RoundsToClosest half_up
half_up-RoundsToClosest = record { closest_quotient = half_up_lem }

abbrev watts : Capdata01
watts = record {
  id = 0x0102ff00;
  supported = 1;
  default_value = 60;
  step = 5;
  min_value = 15;
  max_value = 135;
}

abbrev levels : Capdata01
levels = record watts { step = 0 }

capdata_clamp_close_example :
    2 * distance (pos 63) (capdata_clamp half_up (some watts) (pos 63) none) ≤ 5
capdata_clamp_close_example =
    capdata_clamp_close half_up watts 63 none half_up-RoundsToClosest (ground arith) (omega arith)
      (omega arith) (omega arith)

capdata_clamp_discrete_example :
    let df : DiscreteFeature = record {
      feature_id = 0x01020000;
      values = pos 20 ∷ pos 45 ∷ pos 80 ∷ [];
    } in
    let r = capdata_clamp half_up (some levels) (pos 60) (some df) in
    Chosen (pos 60) r (pos 20 ∷ pos 45 ∷ pos 80 ∷ [])
capdata_clamp_discrete_example =
    capdata_clamp_discrete half_up levels (pos 60) (pos 20) (pos 45 ∷ pos 80 ∷ []) 0x01020000 refl
      (omega arith, (omega arith, (omega arith, tt)))
